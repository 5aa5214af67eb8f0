-- ===== src/LocalStore/Write.antt =====
-- internal/localstore/files.go: writePrivate, by which the credentials file and the marker of the
-- device lock are put in place: through a temporary file and a rename.
use sshm.Prelude.{
  ℕ, Bool, true, false, [], Option, none, some, if◌then◌else◌, take, ◌≡◌, refl, arith, ap, sym, ◌⊎◌,
  inl, inr, Bool-cases,
}
use sshm.Result.{Result, ok, err}
use sshm.LocalStore.{Bytes, StoreError, io_failed, FileRead, content}

-- What Lstat says of the marker beside the file.
pub data Marker : Type 0 where
  absent present unclear : Marker

-- The credentials file, the marker, and the temporary file of a writePrivate that is under way.
pub record Disk : Type 0 where
  pub file : FileRead
  pub marker : Marker
  pub temporary : Option Bytes

-- What the calls of writePrivate answer. It refuses a path that is not a regular file, or that
-- Lstat cannot read; a write may stop after some bytes.
pub record Writing : Type 0 where
  pub refuses : Bool
  pub creates : Bool
  pub protects : Bool
  pub stops_after : Option ℕ
  pub syncs : Bool
  pub closes : Bool
  pub renames : Bool
  pub syncs_directory : Bool

-- The paths that are written.
pub data Target : Type 0 where
  file_path marker_path : Target

abbrev Written : Type 0
Written = Disk × Result StoreError (Unit {0})

-- The next call is made if there was no error.
abbrev then_do : Written → (Disk → Written) → Written
then_do (disk, err e) next = (disk, err e)
then_do (disk, ok _) next = next disk

-- A call that changes no content.
abbrev call : Bool → Disk → Written
call true disk = (disk, ok tt)
call false disk = (disk, err io_failed)

abbrev fill_temporary : Option ℕ → Bytes → Disk → Written
fill_temporary none bytes disk = (record disk { temporary = some bytes }, ok tt)
fill_temporary (some n) bytes disk =
    (record disk { temporary = some (take n bytes) }, err io_failed)

abbrev moved : Target → Option Bytes → Disk → Disk
moved t none disk = disk
moved file_path (some bytes) disk = record disk { file = content bytes; temporary = none }
moved marker_path (some bytes) disk = record disk { marker = present; temporary = none }

abbrev rename_temporary : Target → Bool → Disk → Written
rename_temporary t true disk = (moved t disk.temporary disk, ok tt)
rename_temporary t false disk = (disk, err io_failed)

-- From protect to syncDir.
abbrev write_temporary : Target → Writing → Bytes → Disk → Written
write_temporary t w bytes disk =
    let protected = call w.protects disk in
    let filled = then_do protected (fill_temporary w.stops_after bytes) in
    let synced = then_do filled (call w.syncs) in
    let closed = then_do synced (call w.closes) in
    let renamed = then_do closed (rename_temporary t w.renames) in
    then_do renamed (call w.syncs_directory)

-- The deferred os.Remove, which is taken to succeed; after the rename there is nothing to remove.
abbrev remove_temporary : Written → Written
remove_temporary (disk, r) = (record disk { temporary = none }, r)

-- writePrivate
unfoldable pub write_private : Target → Writing → Bytes → Disk → Written
write_private t w bytes disk =
    if w.refuses
    then (disk, err io_failed)
    else if w.creates
    then remove_temporary (write_temporary t w bytes (record disk { temporary = some [] }))
    else (disk, err io_failed)

-- No temporary file is left, and the bytes are in place.
abbrev pub placed : Target → Bytes → Disk → Disk
placed t bytes disk = moved t (some bytes) disk

-- A write that succeeds has put the bytes in place.
pub write_private-eq-ok :
    (t : Target) (w : Writing) (bytes : Bytes) (disk : Disk)
    → (write_private t w bytes disk).1 ≡ ok tt
    → (write_private t w bytes disk).0 ≡ placed t bytes disk
unfolding write_private
write_private-eq-ok file_path w bytes disk h = ground arith
write_private-eq-ok marker_path w bytes disk h = ground arith

tidied : (disk : Disk) → disk.temporary ≡ none → record disk { temporary = none } ≡ disk
tidied disk tidy = ap {A = Option Bytes} {B = Disk} (λ x. record disk { temporary = x }) (sym tidy)

write_temporary-eq-err :
    (t : Target) (refuses creates protects syncs closes renames syncs_directory : Bool)
    (stops_after : Option ℕ) (bytes : Bytes) (disk : Disk) {e : StoreError}
    → disk.temporary ≡ none
    → let w : Writing = record {
      refuses = refuses;
      creates = creates;
      protects = protects;
      stops_after = stops_after;
      syncs = syncs;
      closes = closes;
      renames = renames;
      syncs_directory = syncs_directory;
    } in
      let written =
        remove_temporary (write_temporary t w bytes (record disk { temporary = some [] })) in
      written.1 ≡ err e
      → (written.0 ≡ disk) ⊎ ((syncs_directory ≡ false) × (written.0 ≡ placed t bytes disk))
write_temporary-eq-err t f c false s cl r d n bytes disk tidy h = inl (tidied disk tidy)
write_temporary-eq-err t f c true s cl r d (some n) bytes disk tidy h = inl (tidied disk tidy)
write_temporary-eq-err t f c true false cl r d none bytes disk tidy h = inl (tidied disk tidy)
write_temporary-eq-err t f c true true false r d none bytes disk tidy h = inl (tidied disk tidy)
write_temporary-eq-err t f c true true true false d none bytes disk tidy h = inl (tidied disk tidy)
write_temporary-eq-err t f c true true true true true none bytes disk tidy h = cc h
write_temporary-eq-err file_path f c true true true true false none bytes disk tidy h =
    inr (refl, refl)
write_temporary-eq-err marker_path f c true true true true false none bytes disk tidy h =
    inr (refl, refl)

-- A write that fails changes nothing, unless all but the sync of the directory was done.
pub write_private-eq-err :
    (t : Target) (w : Writing) (bytes : Bytes) (disk : Disk) {e : StoreError}
    → disk.temporary ≡ none
    → (write_private t w bytes disk).1 ≡ err e
    → ((write_private t w bytes disk).0 ≡ disk)
      ⊎ ((w.syncs_directory ≡ false) × ((write_private t w bytes disk).0 ≡ placed t bytes disk))
unfolding write_private
write_private-eq-err t w bytes disk tidy h = elim (Bool-cases w.refuses) [
  | inl refused ↦ rw refused (inl refl)
  | inr lets ↦ elim (Bool-cases w.creates) [
    | inr full ↦ rw (lets, full) (inl refl)
    | inl created ↦
        rw (lets, created)
          (write_temporary-eq-err t w.refuses w.creates w.protects w.syncs w.closes w.renames
            w.syncs_directory w.stops_after bytes disk tidy (rw (lets, created) at h))
  ]
]
