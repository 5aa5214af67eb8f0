-- ===== src/Updater/Release/Trusted.antt =====
-- What Verify vouches for, in internal/updater/update.go.
use sshm.Prelude.{
  and-eq-true, ◌≤◌, ℤ, pos, ltb_ℤ, ◌≤ℤ◌, ◌<ℤ◌, Bool, true, false, not, ◌&&◌, ◌||◌, List, [], ◌∷◌,
  ◌++◌, Option, none, some, ◌≡◌, ◌≢◌, refl, arith, length, Bool-cases, inl, inr, int_laws, sym, ap,
  eq_ℤ, nat_eq, ltb, if◌then◌else◌, is_nil,
}
unfoldable use sshm.Prelude.{◌+ℤ◌}
use sshm.Text.{Text, ◌==◌, codes, text_eq_iff, has_prefix}
use sshm.Map.{Map, get, put, is_some}
use sshm.Map.Laws.{get-put, text_eq_refl}
use sshm.Result.{Result, ok, err, bind-eq-ok, fail_if, fail_if-eq-ok}
use sshm.Updater.Version.{compare_versions}
use sshm.Updater.Release.{
  Bytes, Asset, Release, Signed, Url, Crypto, ReleaseError, platform, max_download, asset_ok,
  check_assets, url_ok, exceeds_limit, invalid_manifest, signature_failed, invalid_data, expired,
  or_fail, failing_version, digest_ok, out_of_date, key_ok, signature_ok, data_ok, verify_release,
  find_asset, invalid_asset,
}

-- The address is one of the service's downloads, with nothing else in it.
abbrev pub IsOurs : Url → Type 0
IsOurs u =
    (u.scheme ≡ codes "https")
    × (u.host ≡ codes "sshm.yunmini.net")
    × (u.has_user ≡ false)
    × (u.raw_query ≡ [])
    × (u.fragment ≡ [])
    × (has_prefix u.path (codes "/downloads/sshm-") ≡ true)

abbrev pub IsSound : Crypto → Asset → Type 0
IsSound c a =
    ((u : Url) × (c.parse_url a.url ≡ some u) × IsOurs u)
    × ((digest : Bytes) × (c.decode_hex a.sha256 ≡ some digest) × (length digest ≡ 32))
    × (pos 1 ≤ℤ a.size)
    × (a.size ≤ℤ pos max_download)

-- Every asset passes its own tests, and no two are for one platform.
abbrev pub Apart : Asset → List Asset → Type 0
Apart a [] = Unit
Apart a (b ∷ assets) = (platform b ≢ platform a) × Apart a assets

abbrev pub IsCatalogue : Crypto → List Asset → Type 0
IsCatalogue c [] = Unit
IsCatalogue c (a ∷ assets) = IsSound c a × Apart a assets × IsCatalogue c assets

url_ok-IsOurs : (o : Option Url) → url_ok o ≡ true → (u : Url) × (o ≡ some u) × IsOurs u
unfolding url_ok
url_ok-IsOurs none h = cc h
url_ok-IsOurs (some u) h =
    let f = and-eq-true _ _ h in
    let e = and-eq-true _ _ f.0 in
    let d = and-eq-true _ _ e.0 in
    let b = and-eq-true _ _ d.0 in
    let a = and-eq-true _ _ b.0 in
    (
      u,
      refl,
      (
        (text_eq_iff u.scheme _).0 a.0,
        (text_eq_iff u.host _).0 a.1,
        not_true u.has_user b.1,
        nil u.raw_query d.1,
        nil u.fragment e.1,
        f.1,
      ),
    )
  where
    not_true : (x : Bool) → not x ≡ true → x ≡ false
    not_true true h = cc h
    not_true false h = refl

    nil : (s : Text) → is_nil s ≡ true → s ≡ []
    nil [] h = refl
    nil (c ∷ s) h = cc h

digest_ok-length :
    (o : Option Bytes)
    → digest_ok o ≡ true
    → (digest : Bytes) × (o ≡ some digest) × (length digest ≡ 32)
unfolding digest_ok
digest_ok-length none h = cc h
digest_ok-length (some digest) h = (digest, refl, ground (arith, h))

asset_ok-IsSound : (c : Crypto) (a : Asset) → asset_ok c a ≡ true → IsSound c a
unfolding asset_ok
asset_ok-IsSound c a h =
    let t =
      parts (url_ok (c.parse_url a.url)) (digest_ok (c.decode_hex a.sha256)) (ltb_ℤ a.size (pos 1))
        (ltb_ℤ (pos max_download) a.size) h in
    (
      url_ok-IsOurs (c.parse_url a.url) t.0,
      digest_ok-length (c.decode_hex a.sha256) t.1,
      (bounded a.size t.2).0,
      (bounded a.size t.2).1,
    )
  where
    bounded :
        (s : ℤ)
        → (ltb_ℤ s (pos 1) ≡ false) × (ltb_ℤ (pos max_download) s ≡ false)
        → (pos 1 ≤ℤ s) × (s ≤ℤ pos max_download)
    bounded s h = ground (arith, h.0, h.1)

    parts :
        (w x y z : Bool)
        → (w && x && not y && not z) ≡ true
        → (w ≡ true) × (x ≡ true) × ((y ≡ false) × (z ≡ false))
    parts true true false false h = (refl, refl, (refl, refl))
    parts true true false true h = cc h
    parts true true true z h = cc h
    parts true false y z h = cc h
    parts false x y z h = cc h

abbrev Unseen : Map Bool → List Asset → Type 0
Unseen seen [] = Unit
Unseen seen (a ∷ assets) = (is_some (get (platform a) seen) ≡ false) × Unseen seen assets

Unseen-put :
    (seen : Map Bool) (a : Asset) (assets : List Asset)
    → Unseen (put (platform a) true seen) assets
    → Unseen seen assets × Apart a assets
Unseen-put seen a [] h = (tt, tt)
Unseen-put seen a (b ∷ assets) h =
    let rest = Unseen-put seen a assets h.1 in
    let first = fresh (rw get-put at h.0) in ((first.0, rest.0), (first.1, rest.1))
  where
    fresh :
        is_some (if platform a == platform b then some true else get (platform b) seen) ≡ false
        → (is_some (get (platform b) seen) ≡ false) × (platform b ≢ platform a)
    fresh h = elim (Bool-cases (platform a == platform b)) [
      | inl e ↦ cc (rw e at h)
      | inr e ↦ (rw e at h, λ same. cc ((text_eq_iff (platform a) (platform b)).1 (sym same), e))
    ]

check_assets-IsCatalogue :
    (c : Crypto) (seen : Map Bool) (assets : List Asset)
    → check_assets c seen assets ≡ ok tt
    → Unseen seen assets × IsCatalogue c assets
unfolding check_assets
check_assets-IsCatalogue c seen [] h = (tt, tt)
check_assets-IsCatalogue c seen (a ∷ assets) h =
    let step =
      passed (asset_ok c a) (is_some (get (platform a) seen))
        (check_assets c (put (platform a) true seen) assets) h in
    let rest = check_assets-IsCatalogue c (put (platform a) true seen) assets step.2 in
    let apart = Unseen-put seen a assets rest.0 in
    ((step.1, apart.0), (asset_ok-IsSound c a step.0, apart.1, rest.1))
  where
    passed :
        (x y : Bool) (r : Result ReleaseError (Unit {0}))
        → (if not x || y then err invalid_asset else r) ≡ ok tt
        → (x ≡ true) × (y ≡ false) × (r ≡ ok tt)
    passed true false r h = (refl, refl, h)
    passed true true r h = cc h
    passed false y r h = cc h

-- What Verify asks of a release besides its catalogue, at an instant.
abbrev pub IsCurrent : ℤ → Release → Type 0
IsCurrent now r =
    (r.published ≤ℤ now +ℤ pos 86400) × (now ≤ℤ r.expires) × (r.published <ℤ r.expires)

out_of_date-IsCurrent : (now : ℤ) (r : Release) → out_of_date now r ≡ false → IsCurrent now r
unfolding out_of_date
out_of_date-IsCurrent now r h = grind (int_laws, h)

or_fail-eq-ok :
    {A : Type 0} (o : Option A) (e : ReleaseError) (a : A) → or_fail o e ≡ ok a → o ≡ some a
or_fail-eq-ok none e a h = cc h
or_fail-eq-ok (some x) e a h = cc h

key_ok-eq-ok :
    (o : Option Bytes) (key : Bytes) → key_ok o ≡ ok key → (o ≡ some key) × (length key ≡ 32)
unfolding key_ok
key_ok-eq-ok none key h = cc h
key_ok-eq-ok (some k) key h = elim (Bool-cases (nat_eq (length k) 32)) [
  | inl e ↦ let same : k ≡ key = cc (rw e at h) in (ap some same, rw (sym same) (ground (arith, e)))
  | inr e ↦ cc (rw e at h)
]

signature_ok-some :
    (c : Crypto) (key : Bytes) (payload : Text) (o : Option Bytes)
    → not (signature_ok c key payload o) ≡ false
    → (sig : Bytes) × (o ≡ some sig) × (c.ed25519_verify key payload sig ≡ true)
unfolding signature_ok
signature_ok-some c key payload none h = cc h
signature_ok-some c key payload (some sig) h = (sig, refl, ground (arith, h))

data_ok-length :
    (r : Release) → not (data_ok r) ≡ false → (1 ≤ length r.assets) × (length r.assets ≤ 20)
unfolding data_ok
data_ok-length r h = both (eq_ℤ r.protocol (pos 1)) r.assets h
  where
    both :
        (x : Bool) (assets : List Asset)
        → not (x && not (is_nil assets) && not (ltb 20 (length assets))) ≡ false
        → (1 ≤ length assets) × (length assets ≤ 20)
    both true [] h = cc h
    both false [] h = cc h
    both true (a ∷ assets) h = ground (arith, h)
    both false (a ∷ assets) h = cc h

abbrev pub IsSignedBy : Crypto → Bytes → Text → Release → Type 0
IsSignedBy c b public r =
    (signed : Signed) × (key : Bytes) × (sig : Bytes) × (c.read_signed b ≡ some signed)
    × (c.decode_base64 public ≡ some key)
    × (length key ≡ 32)
    × (c.decode_base64 signed.signature ≡ some sig)
    × (c.ed25519_verify key signed.payload sig ≡ true)
    × (c.read_release signed.payload ≡ some r)

-- A manifest that Verify accepts carries a signature under the given key of 32 bytes, over the payload
-- that the release is read from. The release was published at most a day after `now`, is not expired,
-- and has 1 to 20 assets, each at an address of the service with a digest of 32 bytes and a size from
-- 1 byte to 64 MiB, no two for one platform.
pub verify_release-IsCatalogue :
    (c : Crypto) (b : Bytes) (public : Text) (now : ℤ) (r : Release)
    → verify_release c b public now ≡ ok r
    → IsSignedBy c b public r
      × IsCurrent now r
      × (1 ≤ length r.assets)
      × (length r.assets ≤ 20)
      × IsCatalogue c r.assets
unfolding verify_release
verify_release-IsCatalogue c b public now r h =
    let small = bind-eq-ok (fail_if (ltb 65536 (length b)) exceeds_limit) _ h in
    let signed = bind-eq-ok (or_fail (c.read_signed b) invalid_manifest) _ small.2 in
    let key = bind-eq-ok (key_ok (c.decode_base64 public)) _ signed.2 in
    let sound =
      bind-eq-ok
        (fail_if (not (signature_ok c key.0 signed.0.payload (c.decode_base64 signed.0.signature)))
          signature_failed)
        _ key.2 in
    let read = bind-eq-ok (or_fail (c.read_release signed.0.payload) invalid_data) _ sound.2 in
    let shape = bind-eq-ok (fail_if (not (data_ok read.0)) invalid_data) _ read.2 in
    let version =
      bind-eq-ok (failing_version (compare_versions read.0.version read.0.version)) _ shape.2 in
    let dated = bind-eq-ok (fail_if (out_of_date now read.0) expired) _ version.2 in
    let assets = bind-eq-ok (check_assets c [] read.0.assets) _ dated.2 in
    let same : read.0 ≡ r = cc assets.2 in
    let k = key_ok-eq-ok (c.decode_base64 public) key.0 key.1 in
    let sig =
      signature_ok-some c key.0 signed.0.payload (c.decode_base64 signed.0.signature)
        (fail_if-eq-ok _ _ sound.0 sound.1) in
    let bounds = data_ok-length read.0 (fail_if-eq-ok _ _ shape.0 shape.1) in
    rw (sym same) (
      (
        signed.0,
        key.0,
        sig.0,
        or_fail-eq-ok _ _ signed.0 signed.1,
        k.0,
        k.1,
        sig.1,
        sig.2,
        or_fail-eq-ok _ _ read.0 read.1,
      ),
      out_of_date-IsCurrent now read.0 (fail_if-eq-ok _ _ dated.0 dated.1),
      bounds.0,
      bounds.1,
      (check_assets-IsCatalogue c [] read.0.assets assets.1).1,
    )

-- Asset finds any asset of a catalogue under the platform that the asset names.
pub find_asset-IsCatalogue :
    (c : Crypto) (front : List Asset) (a : Asset) (back : List Asset)
    → IsCatalogue c (front ++ a ∷ back)
    → find_asset a.os a.arch (front ++ a ∷ back) ≡ ok a
unfolding find_asset
find_asset-IsCatalogue c [] a back cat = rw (text_eq_refl, text_eq_refl) refl
find_asset-IsCatalogue c (b ∷ front) a back cat =
    elim (Bool-cases ((b.os == a.os) && (b.arch == a.arch))) [
      | inl e ↦ elim (far b a front back cat.1 (agree e)) [ ]
      | inr e ↦ rw e (find_asset-IsCatalogue c front a back cat.2)
    ]
  where
    agree : ((b.os == a.os) && (b.arch == a.arch)) ≡ true → platform a ≡ platform b
    agree e =
        let both = and-eq-true _ _ e in
        rw ((text_eq_iff b.os a.os).0 both.0, (text_eq_iff b.arch a.arch).0 both.1) refl

    far :
        (x y : Asset) (front back : List Asset)
        → Apart x (front ++ y ∷ back)
        → platform y ≢ platform x
    far x y [] back p = p.0
    far x y (z ∷ front) back p = far x y front back p.1
