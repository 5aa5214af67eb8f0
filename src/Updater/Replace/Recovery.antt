-- ===== src/Updater/Replace/Recovery.antt =====
-- The old binary outlives every replacement of internal/updater/update.go.
use sshm.Prelude.{
  Bool, true, false, not, ◌++◌, Option, none, some, ◌≡◌, ◌≢◌, refl, arith, ap, sym, ◌∙◌, length,
  length-append, if◌then◌else◌,
}
use sshm.Text.{Text, ◌==◌, codes}
use sshm.Map.{get, remove}
use sshm.Map.Laws.{get-put, get-remove, get-put_self, not_equal}
use sshm.Result.{Result, ok, err}
use sshm.Updater.Release.{Bytes, Disk}
use sshm.Updater.Replace.{
  Moves, ReplaceError, other_directory, not_regular, not_preserved, restored, retained, rename,
  after_restore, after_activate, after_preserve, replace, backup_name,
}

-- What a rename of a file leaves: nothing, or a disk with the file at its new path.
abbrev IsRenamed : Text → Text → Bytes → Disk → Option Disk → Type 0
IsRenamed old new x disk none = Unit
IsRenamed old new x disk (some d) =
    (get new d ≡ some x) × ((p : Text) → p ≢ old → p ≢ new → get p d ≡ get p disk)

rename-IsRenamed :
    (go : Bool) (old new : Text) (x : Bytes) (disk : Disk)
    → get old disk ≡ some x
    → IsRenamed old new x disk (rename go old new disk)
unfolding rename
rename-IsRenamed false old new x disk h = tt
rename-IsRenamed true old new x disk h =
    rw (h, IsRenamed)
      (
        get-put_self new x (remove old disk),
        λ p ho hn.
            rw
              (
                get-put,
                get-remove,
                not_equal new p (λ e. hn (sym e)),
                not_equal old p (λ e. ho (sym e)),
              )
              refl,
      )

-- Where the two binaries are after a replacement, by its outcome.
abbrev pub Recovered : Text → Text → Bytes → Bytes → Disk × Result ReplaceError Text → Type 0
Recovered target staged old new (disk, ok backup) =
    (get target disk ≡ some new) × (get backup disk ≡ some old) × (backup ≢ staged)
Recovered target staged old new (disk, err (retained backup)) =
    (get backup disk ≡ some old) × (backup ≢ staged)
Recovered target staged old new (disk, err other_directory) =
    (get target disk ≡ some old) × (get staged disk ≡ some new)
Recovered target staged old new (disk, err not_regular) =
    (get target disk ≡ some old) × (get staged disk ≡ some new)
Recovered target staged old new (disk, err not_preserved) =
    (get target disk ≡ some old) × (get staged disk ≡ some new)
Recovered target staged old new (disk, err restored) =
    (get target disk ≡ some old) × (get staged disk ≡ some new)

module _ (target staged backup : Text) (old new : Bytes) (apart : staged ≢ target)
    (named : backup ≢ staged) where
  restored_lem :
      (disk : Disk) (d : Option Disk)
      → get backup disk ≡ some old
      → get staged disk ≡ some new
      → IsRenamed backup target old disk d
      → Recovered target staged old new (after_restore backup disk d)
  unfolding after_restore
  restored_lem disk none kept s r = (kept, named)
  restored_lem disk (some d) kept s r = (r.0, r.1 staged (λ e. named (sym e)) apart ∙ s)

  activated_lem :
      (m : Moves) (disk : Disk) (d : Option Disk)
      → backup ≢ target
      → get backup disk ≡ some old
      → get staged disk ≡ some new
      → IsRenamed staged target new disk d
      → Recovered target staged old new (after_activate m target backup disk d)
  unfolding after_activate
  activated_lem m disk none away kept s r =
      restored_lem disk (rename m.restores backup target disk) kept s
        (rename-IsRenamed m.restores backup target old disk kept)
  activated_lem m disk (some d) away kept s r = (r.0, r.1 backup named away ∙ kept, named)

  preserved_lem :
      (m : Moves) (disk : Disk) (d : Option Disk)
      → backup ≢ target
      → get target disk ≡ some old
      → get staged disk ≡ some new
      → IsRenamed target backup old disk d
      → Recovered target staged old new (after_preserve m target staged backup disk d)
  unfolding after_preserve
  preserved_lem m disk none away t s r = (t, s)
  preserved_lem m disk (some d) away t s r =
      let s' = r.1 staged apart (λ e. named (sym e)) ∙ s in
      activated_lem m d (rename m.activates staged target d) away r.0 s'
        (rename-IsRenamed m.activates staged target new d s')

backup_name-other : (target stamp : Text) → backup_name target stamp ≢ target
backup_name-other target stamp h =
    ground (arith, ap length h, length-append target (codes ".backup-" ++ stamp))

-- A replacement that succeeds leaves the new binary at the target and the old one at the backup that it
-- names. One that fails leaves the old binary at the target and the new one where it was, or, where even
-- the restore failed, the old one at the backup that the error names.
pub replace-Recovered :
    (dir : Text → Text) (m : Moves) (target staged : Text) (old new : Bytes) (disk : Disk)
    → staged ≢ target
    → backup_name target m.stamp ≢ staged
    → get target disk ≡ some old
    → get staged disk ≡ some new
    → Recovered target staged old new (replace dir m target staged disk)
unfolding replace
replace-Recovered dir m target staged old new disk apart named t s =
    checked (dir target == dir staged) m.is_regular
  where
    moved : Recovered target staged old new (
        after_preserve m target staged
          (backup_name target m.stamp)
          disk
          (rename m.preserves target (backup_name target m.stamp) disk))
    moved =
        preserved_lem target staged (backup_name target m.stamp) old new apart named m disk
          (rename m.preserves target (backup_name target m.stamp) disk)
          (backup_name-other target m.stamp) t s
          (rename-IsRenamed m.preserves target (backup_name target m.stamp) old disk t)

    checked :
        (a b : Bool)
        → Recovered target staged old new (
            if not a
            then (disk, err other_directory)
            else if not b
            then (disk, err not_regular)
            else after_preserve m target staged
                (backup_name target m.stamp)
                disk
                (rename m.preserves target (backup_name target m.stamp) disk))
    checked false b = (t, s)
    checked true false = (t, s)
    checked true true = moved
