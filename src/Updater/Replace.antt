-- ===== src/Updater/Replace.antt =====
-- Replace of internal/updater/update.go, and installRelease of internal/commands/update.go.
pub mod Recovery
pub mod Installed
use sshm.Prelude.{
  ℕ, Bool, true, false, not, ◌||◌, List, [], ◌∷◌, ◌++◌, Option, none, some, if◌then◌else◌,
}
use sshm.Text.{Text, ◌==◌, codes}
unfoldable use sshm.Text.{text_eq}
use sshm.Map.{is_some}
unfoldable use sshm.Map.{get, put, remove}
use sshm.Result.{Result, ok, err, ◌>>=◌}
use sshm.Updater.Release.{Bytes, Asset, Release, Crypto, ReleaseError, Fetch, DownloadError, Disk}
unfoldable use sshm.Updater.Release.{find_asset, download}

-- os.Rename within a directory: a missing file cannot be renamed, one at the new path is replaced, and
-- the system may refuse.
unfoldable pub rename : Bool → Text → Text → Disk → Option Disk
unfolding get put remove
rename false old new disk = none
rename true old new disk = elim (get old disk) [
  | none ↦ none
  | some content ↦ some (put new content (remove old disk))
]

-- Whether the system lets each rename of one replacement happen; `is_regular` is what Lstat tells of
-- the target, and `stamp` the time in the backup's name.
pub record Moves : Type 0 where
  pub is_regular : Bool
  pub stamp : Text
  pub preserves : Bool
  pub activates : Bool
  pub restores : Bool

pub data ReplaceError : Type 0 where
  other_directory not_regular not_preserved restored : ReplaceError
  retained : Text → ReplaceError

abbrev pub backup_name : Text → Text → Text
backup_name target stamp = target ++ (codes ".backup-" ++ stamp)

after_restore : Text → Disk → Option Disk → Disk × Result ReplaceError Text
after_restore backup disk none = (disk, err (retained backup))
after_restore backup disk (some back) = (back, err restored)

after_activate : Moves → Text → Text → Disk → Option Disk → Disk × Result ReplaceError Text
unfolding rename after_restore
after_activate m target backup disk (some done) = (done, ok backup)
after_activate m target backup disk none =
    after_restore backup disk (rename m.restores backup target disk)

after_preserve : Moves → Text → Text → Text → Disk → Option Disk → Disk × Result ReplaceError Text
unfolding rename after_activate
after_preserve m target staged backup disk none = (disk, err not_preserved)
after_preserve m target staged backup disk (some kept) =
    after_activate m target backup kept (rename m.activates staged target kept)

-- Replace; `dir` is filepath.Dir.
unfoldable pub replace :
    (Text → Text) → Moves → Text → Text → Disk → Disk × Result ReplaceError Text
unfolding rename after_preserve text_eq
replace dir m target staged disk =
    if not (dir target == dir staged)
    then (disk, err other_directory)
    else if not m.is_regular
    then (disk, err not_regular)
    else (let backup = backup_name target m.stamp in
        after_preserve m target staged backup disk (rename m.preserves target backup disk))

pub data InstallError : Type 0 where
  no_asset : ReleaseError → InstallError
  no_target is_locked : InstallError
  not_downloaded : DownloadError → InstallError
  not_replaced : ReplaceError → InstallError

-- What an installation meets: the platform, the path of the running binary, the lock beside it, the
-- download and the renames.
pub record Install : Type 0 where
  pub goos : Text
  pub goarch : Text
  pub target : Option Text
  pub is_free : Bool
  pub fetch : Fetch
  pub moves : Moves

-- The deferred os.Remove of the staged file.
abbrev pub swept : Text → Disk × Result ReplaceError Text → Disk × Result InstallError Text
swept staged (disk, err e) = (remove staged disk, err (not_replaced e))
swept staged (disk, ok backup) = (remove staged disk, ok backup)

put_in_place :
    (Text → Text)
    → Moves
    → Text
    → Disk × Result DownloadError Text
    → Disk × Result InstallError Text
unfolding replace remove
put_in_place dir m target (disk, err e) = (disk, err (not_downloaded e))
put_in_place dir m target (disk, ok staged) = swept staged (replace dir m target staged disk)

-- With the asset and the target found, and the lock taken.
install_asset :
    Crypto → (Text → Text) → Install → Asset → Text → Disk → Disk × Result InstallError Text
unfolding download put_in_place
install_asset c dir i a target disk =
    if not i.is_free
    then (disk, err is_locked)
    else put_in_place dir i.moves target (download c a i.fetch disk)

with_target :
    Crypto → (Text → Text) → Install → Asset → Option Text → Disk → Disk × Result InstallError Text
unfolding install_asset
with_target c dir i a none disk = (disk, err no_target)
with_target c dir i a (some target) disk = install_asset c dir i a target disk

with_asset :
    Crypto
    → (Text → Text)
    → Install
    → Result ReleaseError Asset
    → Disk
    → Disk × Result InstallError Text
unfolding with_target
with_asset c dir i (err e) disk = (disk, err (no_asset e))
with_asset c dir i (ok a) disk = with_target c dir i a i.target disk

-- installRelease, up to the report of the new version.
unfoldable pub install_release :
    Crypto → (Text → Text) → Install → Release → Disk → Disk × Result InstallError Text
unfolding with_asset find_asset
install_release c dir i r disk = with_asset c dir i (find_asset i.goos i.goarch r.assets) disk
