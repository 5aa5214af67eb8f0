-- ===== src/Updater/Release.antt =====
-- Verify, Asset and Download of internal/updater/update.go. JSON, base64, hex, URLs, Ed25519 and
-- SHA-256 are the fields of `Crypto`; instants are in Unix seconds.
pub mod Trusted
pub mod Fetched
use sshm.Prelude.{
  ℕ, ◌+◌, ℤ, pos, negsuc, ltb_ℤ, eq_ℤ, Bool, true, false, not, ◌&&◌, ◌||◌, List, [], ◌∷◌, ◌++◌,
  Option, none, some, if◌then◌else◌, is_nil, ltb, nat_eq, any, length,
}
unfoldable use sshm.Prelude.{◌+ℤ◌, take}
use sshm.Text.{Text, ◌==◌, codes}
unfoldable use sshm.Text.{text_eq, has_prefix}
use sshm.Map.{Map, is_some}
unfoldable use sshm.Map.{get, put, remove}
use sshm.Result.{Result, ok, err, ◌>>=◌, ◌>>◌, fail_if}
use sshm.Updater.Version.{VersionError, unrecognized, out_of_range, Sign}
unfoldable use sshm.Updater.Version.{compare_versions}

abbrev pub Bytes : Type 0
Bytes = List ℕ

pub record Asset : Type 0 where
  pub os : Text
  pub arch : Text
  pub url : Text
  pub sha256 : Text
  pub size : ℤ

pub record Release : Type 0 where
  pub protocol : ℤ
  pub version : Text
  pub published : ℤ
  pub expires : ℤ
  pub assets : List Asset

pub record Signed : Type 0 where
  pub payload : Text
  pub signature : Text

-- What net/url tells of an address.
pub record Url : Type 0 where
  pub scheme : Text
  pub host : Text
  pub has_user : Bool
  pub raw_query : Text
  pub fragment : Text
  pub path : Text

pub record Crypto : Type 0 where
  pub read_signed : Bytes → Option Signed
  pub read_release : Text → Option Release
  pub decode_base64 : Text → Option Bytes
  pub ed25519_verify : Bytes → Text → Bytes → Bool
  pub parse_url : Text → Option Url
  pub decode_hex : Text → Option Bytes
  pub sha256_hex : Bytes → Text

pub data ReleaseError : Type 0 where
  exceeds_limit invalid_manifest key_unavailable signature_failed invalid_data expired
        invalid_asset :
      ReleaseError
  no_download : ReleaseError
  bad_version : VersionError → ReleaseError

abbrev pub max_download : ℕ
max_download = 67_108_864

abbrev pub or_fail {ℓ} : {A : Type ℓ} → Option A → ReleaseError → Result ReleaseError A
or_fail none e = err e
or_fail (some a) e = ok a

abbrev pub failing_version : Result VersionError Sign → Result ReleaseError (Unit {0})
failing_version (err e) = err (bad_version e)
failing_version (ok s) = ok tt

abbrev pub platform : Asset → Text
platform a = a.os ++ b'/' ∷ a.arch

-- The tests of one asset that do not look at the others.
unfoldable pub url_ok : Option Url → Bool
unfolding text_eq has_prefix
url_ok none = false
url_ok (some u) =
    (u.scheme == codes "https")
    && (u.host == codes "sshm.yunmini.net")
    && not u.has_user
    && is_nil u.raw_query
    && is_nil u.fragment
    && has_prefix u.path (codes "/downloads/sshm-")

unfoldable pub digest_ok : Option Bytes → Bool
digest_ok none = false
digest_ok (some digest) = nat_eq (length digest) 32

unfoldable pub asset_ok : Crypto → Asset → Bool
unfolding url_ok digest_ok
asset_ok c a =
    url_ok (c.parse_url a.url)
    && digest_ok (c.decode_hex a.sha256)
    && not (ltb_ℤ a.size (pos 1))
    && not (ltb_ℤ (pos max_download) a.size)

-- The loop over the assets; the keys of `seen` are the platforms met so far.
unfoldable pub check_assets : Crypto → Map Bool → List Asset → Result ReleaseError (Unit {0})
unfolding asset_ok get put
check_assets c seen [] = ok tt
check_assets c seen (a ∷ assets) =
    let rest = check_assets c (put (platform a) true seen) assets in
    if not (asset_ok c a) || is_some (get (platform a) seen) then err invalid_asset else rest

-- r.Published > now.Add(24*time.Hour).Unix() || r.Expires < now.Unix() || r.Expires <= r.Published
unfoldable pub out_of_date : ℤ → Release → Bool
unfolding ◌+ℤ◌
out_of_date now r =
    ltb_ℤ (now +ℤ pos 86400) r.published || ltb_ℤ r.expires now || not (ltb_ℤ r.published r.expires)

unfoldable pub key_ok : Option Bytes → Result ReleaseError Bytes
key_ok none = err key_unavailable
key_ok (some key) = if not (nat_eq (length key) 32) then err key_unavailable else ok key

-- e != nil || !ed25519.Verify(key, []byte(signed.Payload), sig)
unfoldable pub signature_ok : Crypto → Bytes → Text → Option Bytes → Bool
signature_ok c key payload none = false
signature_ok c key payload (some sig) = c.ed25519_verify key payload sig

unfoldable pub data_ok : Release → Bool
data_ok r = eq_ℤ r.protocol (pos 1) && not (is_nil r.assets) && not (ltb 20 (length r.assets))

-- Verify
unfoldable pub verify_release : Crypto → Bytes → Text → ℤ → Result ReleaseError Release
unfolding key_ok signature_ok data_ok compare_versions out_of_date check_assets
verify_release c b public now = do
  _ ← fail_if (ltb 65536 (length b)) exceeds_limit
  signed ← or_fail (c.read_signed b) invalid_manifest
  key ← key_ok (c.decode_base64 public)
  _ ←
      fail_if (not (signature_ok c key signed.payload (c.decode_base64 signed.signature)))
        signature_failed
  r ← or_fail (c.read_release signed.payload) invalid_data
  _ ← fail_if (not (data_ok r)) invalid_data
  _ ← failing_version (compare_versions r.version r.version)
  _ ← fail_if (out_of_date now r) expired
  _ ← check_assets c [] r.assets
  ok r

-- Release.Asset, for the platform of this client.
unfoldable pub find_asset : Text → Text → List Asset → Result ReleaseError Asset
unfolding text_eq
find_asset goos goarch [] = err no_download
find_asset goos goarch (a ∷ assets) =
    let rest = find_asset goos goarch assets in
    if (a.os == goos) && (a.arch == goarch) then ok a else rest

-- What a download meets: the request, the service's reply, and the system calls on the file.
pub record Fetch : Type 0 where
  pub created : Option Text
  pub request_made : Bool
  pub reply : Option ℕ
  pub body : Bytes
  pub copy_failed : Bool
  pub synced : Bool
  pub closed : Bool
  pub made_executable : Bool

pub data DownloadError : Type 0 where
  not_created not_requested unreachable http_status mismatch not_synced not_closed not_chmod :
      DownloadError

-- The files of the directory by their paths.
abbrev pub Disk : Type 0
Disk = Map Bytes

abbrev pub or_error {ℓ} : {A : Type ℓ} → Option A → DownloadError → Result DownloadError A
or_error none e = err e
or_error (some a) e = ok a

-- io.LimitReader(r.Body, a.Size+1): nothing is read under a size below 0.
abbrev pub limit : ℤ → ℕ
limit (pos n) = n + 1
limit (negsuc n) = 0

-- e != nil || n != a.Size || hex.EncodeToString(h.Sum(nil)) != a.SHA256
unfoldable pub copied_ok : Crypto → Asset → Fetch → Bytes → Bool
unfolding text_eq
copied_ok c a f written =
    not f.copy_failed && eq_ℤ (pos (length written)) a.size && (c.sha256_hex written == a.sha256)

-- What Download does once the file stands there, to its result.
unfoldable pub fill : Crypto → Asset → Fetch → Text → Result DownloadError Text
unfolding copied_ok take
fill c a f path = do
  _ ← fail_if (not f.request_made) not_requested
  status ← or_error f.reply unreachable
  _ ← fail_if (not (nat_eq status 200)) http_status
  _ ← fail_if (not (copied_ok c a f (take (limit a.size) f.body))) mismatch
  _ ← fail_if (not f.synced) not_synced
  _ ← fail_if (not f.closed) not_closed
  _ ← fail_if (not f.made_executable) not_chmod
  ok path

-- The deferred function: without success the file goes.
unfoldable pub keep_if_ok :
    Text → Bytes → Disk → Result DownloadError Text → Disk × Result DownloadError Text
unfolding put remove
keep_if_ok path written disk (err e) = (remove path (put path written disk), err e)
keep_if_ok path written disk (ok p) = (put path written disk, ok p)

-- With the outcome of os.CreateTemp.
download_to : Crypto → Asset → Fetch → Disk → Option Text → Disk × Result DownloadError Text
unfolding fill keep_if_ok take
download_to c a f disk none = (disk, err not_created)
download_to c a f disk (some path) =
    keep_if_ok path (take (limit a.size) f.body) disk (fill c a f path)

-- Download
unfoldable pub download : Crypto → Asset → Fetch → Disk → Disk × Result DownloadError Text
unfolding download_to
download c a f disk = download_to c a f disk f.created
