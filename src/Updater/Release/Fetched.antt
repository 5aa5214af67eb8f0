-- ===== src/Updater/Release/Fetched.antt =====
-- Download of internal/updater/update.go either delivers the signed file or leaves nothing behind.
use sshm.Prelude.{
  true, false, not, Option, none, some, ◌≡◌, ◌≢◌, refl, sym, ap, ◌∙◌, pos, take, length, eq_ℤ,
  int_laws, and-eq-true, not-eq-false, ℤ, nat_eq, Bool-cases, inl, inr,
}
use sshm.Text.{Text, ◌==◌, text_eq_iff}
use sshm.Map.{get}
use sshm.Map.Laws.{get-put, get-remove, get-put_self, not_equal}
use sshm.Result.{Result, ok, err, fail_if, bind-eq-ok, fail_if-eq-ok}
use sshm.Updater.Release.{
  Bytes, Disk, Crypto, Asset, Fetch, DownloadError, not_requested, unreachable, http_status,
  mismatch, not_synced, not_closed, not_chmod, or_error, copied_ok, fill, limit, keep_if_ok,
  download_to, download,
}

-- What a download leaves that returns a path: there, a file of the asset's size and digest, and every
-- other file as it was. A failing one leaves every file that was there.
abbrev pub Fetched : Crypto → Asset → Disk → Disk × Result DownloadError Text → Type 0
Fetched c a disk (after, ok path) =
    (get path disk ≡ none)
    × ((content : Bytes) × (get path after ≡ some content)
        × (pos (length content) ≡ a.size)
        × (c.sha256_hex content ≡ a.sha256))
    × ((p : Text) → p ≢ path → get p after ≡ get p disk)
Fetched c a disk (after, err e) = (p : Text) → get p after ≡ get p disk

copied_ok-facts :
    (c : Crypto) (a : Asset) (f : Fetch) (written : Bytes)
    → not (copied_ok c a f written) ≡ false
    → (pos (length written) ≡ a.size) × (c.sha256_hex written ≡ a.sha256)
unfolding copied_ok
copied_ok-facts c a f written h =
    let digest = and-eq-true _ _ (not-eq-false _ h) in
    let size = and-eq-true _ _ digest.0 in
    (sized a.size size.1, (text_eq_iff (c.sha256_hex written) a.sha256).0 digest.1)
  where
    sized : (s : ℤ) → eq_ℤ (pos (length written)) s ≡ true → pos (length written) ≡ s
    sized s h = grind (int_laws, h)

fill-facts :
    (c : Crypto) (a : Asset) (f : Fetch) (path p : Text)
    → fill c a f path ≡ ok p
    → (p ≡ path)
      × (let content = take (limit a.size) f.body in
          (pos (length content) ≡ a.size) × (c.sha256_hex content ≡ a.sha256))
unfolding fill
fill-facts c a f path p h =
    let made = bind-eq-ok (fail_if (not f.request_made) not_requested) _ h in
    let status = bind-eq-ok (or_error f.reply unreachable) _ made.2 in
    let good = bind-eq-ok (fail_if (not (nat_eq status.0 200)) http_status) _ status.2 in
    let copied =
      bind-eq-ok (fail_if (not (copied_ok c a f (take (limit a.size) f.body))) mismatch) _ good.2 in
    let synced = bind-eq-ok (fail_if (not f.synced) not_synced) _ copied.2 in
    let closed = bind-eq-ok (fail_if (not f.closed) not_closed) _ synced.2 in
    let chmod = bind-eq-ok (fail_if (not f.made_executable) not_chmod) _ closed.2 in
    (cc chmod.2, copied_ok-facts c a f _ (fail_if-eq-ok _ _ copied.0 copied.1))

-- A download whose temporary file is new.
pub download-Fetched :
    (c : Crypto) (a : Asset) (f : Fetch) (disk : Disk)
    → ((path : Text) → f.created ≡ some path → get path disk ≡ none)
    → Fetched c a disk (download c a f disk)
unfolding download download_to keep_if_ok
download-Fetched c a f disk new = at_path f.created new
  where
    kept :
        (path : Text)
        → get path disk ≡ none
        → (r : Result DownloadError Text)
        → ((p : Text)
            → r ≡ ok p
            → (p ≡ path)
              × (let content = take (limit a.size) f.body in
                  (pos (length content) ≡ a.size) × (c.sha256_hex content ≡ a.sha256)))
        → Fetched c a disk (keep_if_ok path (take (limit a.size) f.body) disk r)
    kept path new (err e) facts = λ p. elim (Bool-cases (path == p)) [
      | inl e ↦ rw (get-remove, e, sym ((text_eq_iff path p).0 e)) (sym new)
      | inr e ↦ rw (get-remove, e, get-put, e) refl
    ]
    kept path new (ok q) facts =
        let fact = facts q refl in
        rw fact.0 (
          new,
          (take (limit a.size) f.body, get-put_self path _ disk, fact.1.0, fact.1.1),
          λ p h. rw (get-put, not_equal path p (λ e. h (sym e))) refl,
        )

    at_path :
        (o : Option Text)
        → ((path : Text) → o ≡ some path → get path disk ≡ none)
        → Fetched c a disk (download_to c a f disk o)
    at_path none new = λ p. refl
    at_path (some path) new = kept path (new path refl) (fill c a f path) (fill-facts c a f path)

pub download-created :
    (c : Crypto) (a : Asset) (f : Fetch) (disk : Disk) (p : Text)
    → (download c a f disk).1 ≡ ok p
    → f.created ≡ some p
unfolding download download_to keep_if_ok
download-created c a f disk p h = at_path f.created h
  where
    same :
        (path : Text) (r : Result DownloadError Text) (x : Bytes) → (keep_if_ok path x disk r).1 ≡ r
    same path (err e) x = refl
    same path (ok q) x = refl

    at_path : (o : Option Text) → (download_to c a f disk o).1 ≡ ok p → o ≡ some p
    at_path none h = cc h
    at_path (some path) h = ap some (
        sym
          (fill-facts c a f path p
            (sym (same path (fill c a f path) (take (limit a.size) f.body)) ∙ h)).0)
