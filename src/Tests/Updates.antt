-- ===== src/Tests/Updates.antt =====
-- A signed release that is checked and installed, with a second attempt that fails.
use sshm.Prelude.{
  ℕ, pos, Bool, true, false, [], ◌∷◌, ◌++◌, Option, none, some, ◌≡◌, ◌≢◌, ◌≤◌, refl, arith, sym,
  length, take, if◌then◌else◌,
}
use sshm.Text.{
  Text, codes, ◌==◌, text_eq, has_prefix, split, parse_uint, is_digit, digits_value, take_while,
  drop_while, contains_rune, text_eq_iff,
}
use sshm.Text.Order.{text_ltb}
use sshm.Map.{get, put, remove}
use sshm.Result.{ok}
use sshm.Updater.Version.{
  Parts, less, more, find_version, compare_versions, compare_parts, compare_numerals, compare_pre,
  compare_ids, compare_id, compare_read, is_numeral, is_suffix, without_v, pre_of,
}
use sshm.Updater.Version.Order.{IsClear, compare_versions-opposite}
use sshm.Updater.Release.{
  Bytes, Asset, Release, Url, Crypto, Disk, verify_release, key_ok, signature_ok, data_ok,
  check_assets, asset_ok, url_ok, digest_ok, out_of_date, find_asset, download, fill, copied_ok,
  keep_if_ok,
}
use sshm.Updater.Release.Trusted.{IsSignedBy, IsCurrent, IsCatalogue, verify_release-IsCatalogue}
use sshm.Updater.Replace.{Install, install_release, replace, rename, backup_name}
use sshm.Updater.Replace.Installed.{Installed, install_release-Installed}

computing : Unit {0}
unfolding text_eq has_prefix split parse_uint is_digit digits_value take_while drop_while
    contains_rune text_ltb get put remove find_version compare_versions compare_parts
    compare_numerals compare_pre compare_ids compare_id compare_read is_numeral is_suffix without_v
    pre_of verify_release key_ok signature_ok data_ok check_assets asset_ok url_ok digest_ok
    out_of_date find_asset download fill copied_ok keep_if_ok install_release replace rename take
computing = tt

abbrev candidate : Text
candidate = codes "v1.2.0-rc.2"

abbrev beta : Text
beta = codes "1.2.0-rc.11+build"

abbrev parts : Text → Parts
parts pre = record { major = codes "1"; minor = codes "2"; patch = codes "0"; pre = pre }

candidate_read : find_version candidate ≡ some (parts (codes "rc.2"))
unfolding computing
candidate_read = refl

beta_read : find_version beta ≡ some (parts (codes "rc.11"))
unfolding computing
beta_read = refl

numeric : compare_versions candidate beta ≡ ok less
unfolding computing
numeric = refl

two_is_not_eleven : (n : ℕ) → ◌≡◌ {A = Option ℕ} (some 2) (some n) → some 11 ≢ some n
two_is_not_eleven n h k = omega (arith, some_number 2 n h, some_number 11 n k)
  where
    some_number : (m n : ℕ) → ◌≡◌ {A = Option ℕ} (some m) (some n) → m ≡ n
    some_number m n h = cc h

clear : IsClear (split (codes "rc.2") b'.') (split (codes "rc.11") b'.')
unfolding computing
clear = (λ n h k. refl, ((λ n h k. elim (two_is_not_eleven n h k) [ ]), tt))

compare_versions-opposite_example : compare_versions beta candidate ≡ ok more
compare_versions-opposite_example =
    compare_versions-opposite candidate beta (parts (codes "rc.2")) (parts (codes "rc.11")) less
      candidate_read beta_read clear numeric

-- Two spellings of one number: each version is above the other.
leading_zero_test :
    (compare_versions (codes "1.0.0-01") (codes "1.0.0-1") ≡ ok more)
    × (compare_versions (codes "1.0.0-1") (codes "1.0.0-01") ≡ ok more)
unfolding computing
leading_zero_test = (refl, refl)

abbrev byte_string : ℕ → Bytes
byte_string c =
    let four = c ∷ c ∷ c ∷ c ∷ [] in let eight = four ++ four in eight ++ eight ++ eight ++ eight

abbrev asset : Text → Asset
asset os = record {
  os = os;
  arch = codes "arm64";
  url = codes "https://sshm.yunmini.net/downloads/sshm-1";
  sha256 = 1 ∷ 2 ∷ 3 ∷ [];
  size = pos 3;
}

abbrev release : Release
release = record {
  protocol = pos 1;
  version = codes "1.3.0";
  published = pos 1000;
  expires = pos 9000;
  assets = asset (codes "linux") ∷ asset (codes "darwin") ∷ [];
}

abbrev our_url : Url
our_url = record {
  scheme = codes "https";
  host = codes "sshm.yunmini.net";
  has_user = false;
  raw_query = [];
  fragment = [];
  path = codes "/downloads/sshm-1";
}

-- A signature is the key and the payload, and a digest the content itself.
abbrev crypto : Crypto
crypto = record {
  read_signed = λ b. some (record { payload = codes "payload"; signature = codes "sig" });
  read_release = λ payload. if payload == codes "payload" then some release else none;
  decode_base64 = λ s.
      if s == codes "sig" then some (byte_string 7 ++ codes "payload") else some (byte_string 7);
  ed25519_verify = λ key payload sig. (key ++ payload) == sig;
  parse_url =
      λ u. if u == codes "https://sshm.yunmini.net/downloads/sshm-1" then some our_url else none;
  decode_hex = λ s. some (byte_string 1);
  sha256_hex = λ b. b;
}

verified : verify_release crypto (codes "{}") (codes "key") (pos 2000) ≡ ok release
unfolding computing
verified = refl

verify_release-IsCatalogue_example :
    IsSignedBy crypto (codes "{}") (codes "key") release
    × IsCurrent (pos 2000) release
    × (1 ≤ length release.assets)
    × (length release.assets ≤ 20)
    × IsCatalogue crypto release.assets
verify_release-IsCatalogue_example =
    verify_release-IsCatalogue crypto (codes "{}") (codes "key") (pos 2000) release verified

abbrev target : Text
target = codes "/opt/sshm"

abbrev staging : Text
staging = codes "/opt/.sshm-update-1"

abbrev old_binary : Bytes
old_binary = 9 ∷ 9 ∷ []

abbrev disk : Disk
disk = (target, old_binary) ∷ []

abbrev attempt : Bool → Install
attempt activates = record {
  goos = codes "darwin";
  goarch = codes "arm64";
  target = some target;
  is_free = true;
  fetch = record {
    created = some staging;
    request_made = true;
    reply = some 200;
    body = 1 ∷ 2 ∷ 3 ∷ [];
    copy_failed = false;
    synced = true;
    closed = true;
    made_executable = true;
  };
  moves = record {
    is_regular = true;
    stamp = codes "5";
    preserves = true;
    activates = activates;
    restores = true;
  };
}

-- The new binary stands at the target, the old one at the backup, and the staged file is gone.
installed_test : install_release crypto (λ path. []) (attempt true) release disk ≡ (
  (target, 1 ∷ 2 ∷ 3 ∷ []) ∷ (backup_name target (codes "5"), old_binary) ∷ [],
  ok (backup_name target (codes "5")),
)
unfolding computing
installed_test = refl

-- Where the activation fails, the old binary is put back.
restored_test : (install_release crypto (λ path. []) (attempt false) release disk).0 ≡ disk
unfolding computing
restored_test = refl

target_stands : get target disk ≡ some old_binary
unfolding computing
target_stands = refl

staging_is_new :
    (path : Text)
    → (attempt true).fetch.created ≡ some path
    → (get path disk ≡ none) × (backup_name target (attempt true).moves.stamp ≢ path)
unfolding computing
staging_is_new path h = rw (sym (path_of h)) (refl, λ e. elim (differ e) [ ])
  where
    path_of : ◌≡◌ {A = Option Text} (some staging) (some path) → staging ≡ path
    path_of h = cc h

    differ : backup_name target (codes "5") ≢ staging
    differ e = cc ((text_eq_iff (backup_name target (codes "5")) staging).1 e)

install_release-Installed_example :
    Installed crypto
      (find_asset (codes "darwin") (codes "arm64") release.assets)
      target
      old_binary
      (install_release crypto (λ path. []) (attempt true) release disk)
install_release-Installed_example =
    install_release-Installed crypto (λ path. []) (attempt true) release target old_binary disk refl
      target_stands staging_is_new
