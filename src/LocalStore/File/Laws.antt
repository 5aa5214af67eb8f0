-- ===== src/LocalStore/File/Laws.antt =====
-- What a transaction of internal/localstore/store.go promises.
use sshm.Prelude.{◌⊎◌, inl, inr, Bool, none, true, false, ◌≡◌, ◌≢◌, refl, arith, ap}
use sshm.Result.{Result, ok, err, bind-eq-ok, fail_if, ◌>>◌}
use sshm.LocalStore.{
  Bytes, Data, StoreError, locked, io_failed, FileRead, missing, unreadable, content,
}
use sshm.LocalStore.Write.{
  Disk, absent, present, file_path, marker_path, placed, write_private-eq-ok, write_private-eq-err,
}
use sshm.LocalStore.File.{
  Device, Attempt, Session, read, read_store, open_or_create, prepare, commit, update, lock_store,
  unlock_store, check_locked, read_private, look, place_marker, lock_held, remove_marker,
  unlock_opened,
}

commit-eq-err :
    (a : Attempt) (disk : Disk) (r : Result StoreError Bytes) {e : StoreError}
    → disk.temporary ≡ none
    → (commit a disk r).1 ≡ err e
    → ((commit a disk r).0 ≡ disk)
      ⊎ ((a.writing.syncs_directory ≡ false)
          × ((bytes : Bytes) × ((r ≡ ok bytes)
                × ((commit a disk r).0 ≡ placed file_path bytes disk))))
unfolding commit
commit-eq-err a disk (err e) tidy failed = inl refl
commit-eq-err a disk (ok bytes) tidy failed =
    elim (write_private-eq-err file_path a.writing bytes disk tidy failed) [
      | inl same ↦ inl same
      | inr done ↦ inr (done.0, (bytes, (refl, done.1)))
    ]

-- A transaction that starts with no temporary file and ends in an error leaves the file and the
-- marker as they were and no temporary file, unless the sync of the directory failed after the
-- rename: the whole of what was prepared is then in place, and no temporary file is left either.
pub update_is_atomic :
    (dev : Device) (a : Attempt) (change : Data → Result StoreError Data) (disk : Disk)
    (e : StoreError)
    → disk.temporary ≡ none
    → (update dev a change disk).1 ≡ err e
    → ((update dev a change disk).0 ≡ disk)
      ⊎ ((a.writing.syncs_directory ≡ false)
          × ((bytes : Bytes) × ((prepare dev a change disk ≡ ok bytes)
                × ((update dev a change disk).0
                    ≡ record disk { file = content bytes; temporary = none }))))
unfolding update
update_is_atomic dev a change disk e tidy failed =
    commit-eq-err a disk (prepare dev a change disk) tidy failed

-- The store of a locked device is closed: nothing reads its data, and no transaction changes the
-- disk or succeeds.
abbrev pub IsClosed : Device → Disk → Type 0
IsClosed dev disk =
    ((a : Attempt) (d : Data) → read_store dev a disk ≢ ok d)
    × ((a : Attempt) (change : Data → Result StoreError Data)
        → ((update dev a change disk).0 ≡ disk) × ((update dev a change disk).1 ≢ ok tt))

reads_locked :
    (dev : Device) (disk : Disk) → disk.marker ≡ present → read dev false disk ≡ err locked
unfolding read check_locked
reads_locked dev disk h = rw h

read_store_locked :
    (dev : Device) (a : Attempt) (disk : Disk) (d : Data)
    → disk.marker ≡ present
    → read_store dev a disk ≢ ok d
unfolding read_store
read_store_locked dev a disk d h done =
    let after_look = bind-eq-ok (look disk.file) _ done in
    let after_lock = bind-eq-ok a.lock _ after_look.2 in
    let opened = bind-eq-ok (read dev false disk) _ after_lock.2 in
    cc (opened.1, reads_locked dev disk h)

prepare_locked :
    (dev : Device) (a : Attempt) (change : Data → Result StoreError Data) (disk : Disk)
    (bytes : Bytes)
    → disk.marker ≡ present
    → prepare dev a change disk ≢ ok bytes
unfolding prepare open_or_create
prepare_locked dev a change disk bytes h done =
    let after_directory = bind-eq-ok (fail_if a.no_directory io_failed) _ done in
    let after_lock = bind-eq-ok a.lock _ after_directory.2 in
    let opened = bind-eq-ok (open_or_create dev a (read dev false disk)) _ after_lock.2 in
    cc (opened.1, ap (open_or_create dev a) (reads_locked dev disk h))

commit_refused :
    (a : Attempt) (disk : Disk) (r : Result StoreError Bytes)
    → ((bytes : Bytes) → r ≢ ok bytes)
    → ((commit a disk r).0 ≡ disk) × ((commit a disk r).1 ≢ ok tt)
unfolding commit
commit_refused a disk (err e) never = (refl, λ h. cc h)
commit_refused a disk (ok bytes) never = elim (never bytes refl) [ ]

-- While the marker of the lock is there, no call of Read gives data and no call of Update succeeds or
-- changes the disk, whatever the device answers.
pub locked-IsClosed : (dev : Device) (disk : Disk) → disk.marker ≡ present → IsClosed dev disk
unfolding update
locked-IsClosed dev disk h = (
  λ a d. read_store_locked dev a disk d h,
  λ a change.
      commit_refused a disk (prepare dev a change disk)
        (λ bytes. prepare_locked dev a change disk bytes h),
)

lock_held-present :
    (a : Attempt) (r : Result StoreError (Unit {0})) (disk : Disk)
    → (lock_held a r disk).1 ≡ ok tt
    → (lock_held a r disk).0 ≡ record disk { marker = present; temporary = none }
unfolding lock_held place_marker
lock_held-present a (err e) disk h = cc h
lock_held-present a (ok _) disk h = write_private-eq-ok marker_path a.writing _ disk h

-- After a Lock that reports success no Read gives data and no Update succeeds or changes the
-- disk, whatever they meet, and the credentials file is as it was.
pub lock_store-IsClosed :
    (dev : Device) (a : Attempt) (disk : Disk)
    → (lock_store a disk).1 ≡ ok tt
    → IsClosed dev (lock_store a disk).0 × ((lock_store a disk).0.file ≡ disk.file)
unfolding lock_store
lock_store-IsClosed dev a disk done =
    let placed = lock_held-present a (look disk.file >> a.lock) disk done in
    rw placed (locked-IsClosed dev (record disk { marker = present; temporary = none }) refl, refl)

remove_marker-absent :
    (w : Bool) (disk : Disk)
    → (remove_marker w disk.marker disk).1 ≡ ok tt
    → (remove_marker w disk.marker disk).0 ≡ record disk { marker = absent }
unfolding remove_marker
remove_marker-absent w disk h = ground arith

unlock_opened-absent :
    (a : Attempt) (r : Result StoreError Session) (disk : Disk)
    → (unlock_opened a r disk).1 ≡ ok tt
    → (s : Session) × (r ≡ ok s) × ((unlock_opened a r disk).0 ≡ record disk { marker = absent })
unfolding unlock_opened
unlock_opened-absent a (err e) disk h = cc h
unlock_opened-absent a (ok s) disk h = (s, refl, remove_marker-absent a.removes_marker disk h)

look_private : (f : FileRead) {bytes : Bytes} → read_private f ≡ ok bytes → look f ≡ ok tt
unfolding look read_private
look_private missing h = cc h
look_private unreadable h = cc h
look_private (content b) h = refl

read_unmarked :
    (dev : Device) (b : Attempt) (disk : Disk) (s : Session)
    → b.lock ≡ ok tt
    → read dev true disk ≡ ok s
    → read_store dev b (record disk { marker = absent }) ≡ ok s.opened
unfolding read_store read check_locked
read_unmarked dev b disk s held h =
    let bytes = bind-eq-ok (read_private disk.file) _ h in
    rw (look_private disk.file bytes.1, held, bytes.1, bytes.2)

-- An Unlock that reports success has opened the store with the key of the device first: the next
-- Read that gets the file lock gives the data, which the file held all along.
pub unlock_store-opens :
    (dev : Device) (a b : Attempt) (disk : Disk)
    → b.lock ≡ ok tt
    → (unlock_store dev a disk).1 ≡ ok tt
    → (d : Data) × (read_store dev b (unlock_store dev a disk).0 ≡ ok d)
      × ((unlock_store dev a disk).0.file ≡ disk.file)
unfolding unlock_store
unlock_store-opens dev a b disk held done =
    let opened = unlock_opened-absent a (a.lock >> read dev true disk) disk done in
    let locked_file = bind-eq-ok a.lock _ opened.1 in
    rw opened.2 (opened.0.opened, read_unmarked dev b disk opened.0 held locked_file.2, refl)
