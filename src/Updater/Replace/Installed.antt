-- ===== src/Updater/Replace/Installed.antt =====
-- What installRelease of internal/commands/update.go leaves on the disk.
use sshm.Prelude.{
  Bool, true, false, not, none, some, ◌≡◌, ◌≢◌, refl, ap, sym, ◌∙◌, pos, length, if◌then◌else◌,
}
use sshm.Text.{Text}
use sshm.Map.{get, remove}
use sshm.Map.Laws.{get-remove, not_equal}
use sshm.Result.{Result, ok, err}
use sshm.Updater.Release.{
  Bytes, Disk, Crypto, Asset, Release, ReleaseError, DownloadError, find_asset, download,
}
use sshm.Updater.Release.Fetched.{Fetched, download-Fetched, download-created}
use sshm.Updater.Replace.{
  Moves, ReplaceError, other_directory, not_regular, not_preserved, restored, retained, replace,
  backup_name, Install, InstallError, no_asset, no_target, is_locked, not_downloaded, not_replaced,
  swept, put_in_place, install_asset, with_target, with_asset, install_release,
}
use sshm.Updater.Replace.Recovery.{Recovered, replace-Recovered}

abbrev pub IsDownloadOf : Crypto → Result ReleaseError Asset → Bytes → Type 0
IsDownloadOf c (ok a) content = (pos (length content) ≡ a.size) × (c.sha256_hex content ≡ a.sha256)
IsDownloadOf c (err e) content = ⊥

-- Where the old binary is after a failure.
abbrev pub Failed : Text → Bytes → Disk → InstallError → Type 0
Failed target old disk (not_replaced (retained backup)) = get backup disk ≡ some old
Failed target old disk (not_replaced other_directory) = get target disk ≡ some old
Failed target old disk (not_replaced not_regular) = get target disk ≡ some old
Failed target old disk (not_replaced not_preserved) = get target disk ≡ some old
Failed target old disk (not_replaced restored) = get target disk ≡ some old
Failed target old disk (no_asset e) = get target disk ≡ some old
Failed target old disk no_target = get target disk ≡ some old
Failed target old disk is_locked = get target disk ≡ some old
Failed target old disk (not_downloaded e) = get target disk ≡ some old

abbrev pub Installed :
    Crypto → Result ReleaseError Asset → Text → Bytes → Disk × Result InstallError Text → Type 0
Installed c asset target old (disk, err e) = Failed target old disk e
Installed c asset target old (disk, ok backup) =
    ((content : Bytes) × (get target disk ≡ some content) × IsDownloadOf c asset content)
    × (get backup disk ≡ some old)

kept_lem :
    (k staged : Text) (x : Bytes) (disk : Disk)
    → k ≢ staged
    → get k disk ≡ some x
    → get k (remove staged disk) ≡ some x
kept_lem k staged x disk h e = rw (get-remove, not_equal staged k (λ q. h (sym q))) e

swept-Installed :
    (c : Crypto) (asset : Result ReleaseError Asset) (target staged : Text) (old new : Bytes)
    (r : Disk × Result ReplaceError Text)
    → staged ≢ target
    → IsDownloadOf c asset new
    → Recovered target staged old new r
    → Installed c asset target old (swept staged r)
swept-Installed c asset target staged old new (disk, ok backup) apart d h = (
  (new, kept_lem target staged new disk (λ e. apart (sym e)) h.0, d),
  kept_lem backup staged old disk h.2 h.1,
)
swept-Installed c asset target staged old new (disk, err (retained backup)) apart d h =
    kept_lem backup staged old disk h.1 h.0
swept-Installed c asset target staged old new (disk, err other_directory) apart d h =
    kept_lem target staged old disk (λ e. apart (sym e)) h.0
swept-Installed c asset target staged old new (disk, err not_regular) apart d h =
    kept_lem target staged old disk (λ e. apart (sym e)) h.0
swept-Installed c asset target staged old new (disk, err not_preserved) apart d h =
    kept_lem target staged old disk (λ e. apart (sym e)) h.0
swept-Installed c asset target staged old new (disk, err restored) apart d h =
    kept_lem target staged old disk (λ e. apart (sym e)) h.0

module _ (c : Crypto) (dir : Text → Text) (target : Text) (old : Bytes) (disk : Disk)
    (stands : get target disk ≡ some old) where
  put_in_place-Installed :
      (m : Moves) (a : Asset) (r : Disk × Result DownloadError Text)
      → ((staged : Text) → r.1 ≡ ok staged → backup_name target m.stamp ≢ staged)
      → Fetched c a disk r
      → Installed c (ok a) target old (put_in_place dir m target r)
  unfolding put_in_place
  put_in_place-Installed m a (after, err e) named f = f target ∙ stands
  put_in_place-Installed m a (after, ok staged) named f =
      swept-Installed c (ok a) target staged old f.1.0 (replace dir m target staged after) apart
        (f.1.2, f.1.3)
        (replace-Recovered dir m target staged old f.1.0 after apart (named staged refl)
          (f.2 target (λ e. apart (sym e)) ∙ stands) f.1.1)
    where
      apart : staged ≢ target
      apart e = cc (sym stands ∙ ap (λ k. get k disk) (sym e) ∙ f.0)

  module _ (i : Install)
      (new : (path : Text)
        → i.fetch.created ≡ some path
        → (get path disk ≡ none) × (backup_name target i.moves.stamp ≢ path)) where
    install_asset-Installed :
        (a : Asset) → Installed c (ok a) target old (install_asset c dir i a target disk)
    unfolding install_asset
    install_asset-Installed a = checked i.is_free
      where
        checked :
            (b : Bool)
            → Installed c (ok a) target old (
                if not b
                then (disk, err is_locked)
                else put_in_place dir i.moves target (download c a i.fetch disk))
        checked false = stands
        checked true =
            put_in_place-Installed i.moves a (download c a i.fetch disk)
              (λ staged e. (new staged (download-created c a i.fetch disk staged e)).1)
              (download-Fetched c a i.fetch disk (λ path e. (new path e).0))

    with_asset-Installed :
        (o : Result ReleaseError Asset)
        → i.target ≡ some target
        → Installed c o target old (with_asset c dir i o disk)
    unfolding with_asset with_target
    with_asset-Installed (err e) t = stands
    with_asset-Installed (ok a) t = rw (t, with_target) (install_asset-Installed a)

-- An installation over the binary at `target`, whose temporary file is new and whose backup has another
-- name: if it succeeds, the target holds a file of the size and the digest of the asset that the release
-- names for this platform, and the backup that it returns holds the old binary. If it fails, the old
-- binary stands at the target; only where the activation and the restore both failed, it stands at the
-- backup that the error names.
pub install_release-Installed :
    (c : Crypto) (dir : Text → Text) (i : Install) (r : Release) (target : Text) (old : Bytes)
    (disk : Disk)
    → i.target ≡ some target
    → get target disk ≡ some old
    → ((path : Text)
        → i.fetch.created ≡ some path
        → (get path disk ≡ none) × (backup_name target i.moves.stamp ≢ path))
    → Installed c (find_asset i.goos i.goarch r.assets) target old (install_release c dir i r disk)
unfolding install_release
install_release-Installed c dir i r target old disk t stands new =
    with_asset-Installed c dir target old disk stands i new (find_asset i.goos i.goarch r.assets) t
