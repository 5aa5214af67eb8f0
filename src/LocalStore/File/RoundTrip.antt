-- ===== src/LocalStore/File/RoundTrip.antt =====
-- What Update writes in internal/localstore/store.go, Read gives back.
use sshm.Prelude.{
  pos, Bool, true, false, not, Option, none, some, ◌≡◌, refl, arith, sym, ◌∙◌, ltb, nat_eq, length,
  is_nil, ap,
}
use sshm.Text.{Text, text_eq, text_eq_iff}
use sshm.Map.Laws.{text_eq_refl}
use sshm.Result.{Result, ok, err, bind-eq-ok, fail_if}
use sshm.Prelude.{eq_ℤ}
use sshm.LocalStore.{Bytes, Data, Envelope, StoreError, io_failed}
use sshm.LocalStore.Write.{Disk, absent, file_path, placed, write_private-eq-ok}
use sshm.LocalStore.File.{
  Device, Attempt, Session, associated, max_store_size, bad_envelope, open_file, read, read_store,
  create, open_or_create, sealed, stage, prepare, commit, update, check_locked, read_private, look,
  or_fail,
}

-- The key protection gives the key of an opened session, and its envelope passes the checks of read.
abbrev IsOpened : Device → Session → Type 0
IsOpened dev s =
    (bad_envelope dev s.envelope ≡ false)
    × (dev.unprotect dev.instance_name s.envelope.backend s.envelope.wrapped_key ≡ some s.key)
    × (nat_eq (length s.key) 32 ≡ true)

or_fail-eq-ok :
    {A : Type 0} (o : Option A) (e : StoreError) {a : A} → or_fail o e ≡ ok a → o ≡ some a
or_fail-eq-ok none e h = cc h
or_fail-eq-ok (some a) e h = cc h

fail_if-not-eq-ok : (b : Bool) (e : StoreError) {u : Unit {0}} → fail_if (not b) e ≡ ok u → b ≡ true
fail_if-not-eq-ok true e h = refl
fail_if-not-eq-ok false e h = cc h

fail_if-false : (b : Bool) (e : StoreError) {u : Unit {0}} → fail_if b e ≡ ok u → b ≡ false
fail_if-false true e h = cc h
fail_if-false false e h = refl

ok-injective : {A : Type 0} {a b : A} → ◌≡◌ {A = Result StoreError A} (ok a) (ok b) → a ≡ b
ok-injective h = cc h

open_file-IsOpened :
    (dev : Device) (bytes : Bytes) (s : Session) → open_file dev bytes ≡ ok s → IsOpened dev s
unfolding open_file
open_file-IsOpened dev bytes s h =
    let enc = bind-eq-ok (or_fail (dev.decode_envelope bytes) _) _ h in
    let good = bind-eq-ok (fail_if (bad_envelope dev enc.0) _) _ enc.2 in
    let key =
      bind-eq-ok (or_fail (dev.unprotect dev.instance_name enc.0.backend enc.0.wrapped_key) _) _
        good.2 in
    let long = bind-eq-ok (fail_if (not (nat_eq (length key.0) 32)) _) _ key.2 in
    let nonce = bind-eq-ok (fail_if (not (nat_eq (length enc.0.nonce) 12)) _) _ long.2 in
    let plain =
      bind-eq-ok (or_fail (dev.aead_open key.0 enc.0.nonce (associated dev) enc.0.ciphertext) _) _
        nonce.2 in
    let d = bind-eq-ok (or_fail (dev.decode_data plain.0) _) _ plain.2 in
    let version = bind-eq-ok (fail_if (not (eq_ℤ d.0.version (pos 1))) _) _ d.2 in
    rw (← ok-injective version.2)
      (fail_if-false _ _ good.1, or_fail-eq-ok _ _ key.1, fail_if-not-eq-ok _ _ long.1)

read-IsOpened :
    (dev : Device) (disk : Disk) (s : Session) → read dev false disk ≡ ok s → IsOpened dev s
unfolding read
read-IsOpened dev disk s h =
    let marker = bind-eq-ok (check_locked disk.marker) _ h in
    let bytes = bind-eq-ok (read_private disk.file) _ marker.2 in
    open_file-IsOpened dev bytes.0 s bytes.2

-- The key protection keeps a wrapped key within the bounds of the file format, and random bytes come
-- in the number asked for.
pub record IsDependable (dev : Device) (a : Attempt) : Type 0 where
  pub key_length : (key : Bytes) → a.random_key ≡ some key → nat_eq (length key) 32 ≡ true
  pub nonce_length : (nonce : Bytes) → a.random_nonce ≡ some nonce → nat_eq (length nonce) 12 ≡ true
  pub wrapped_length :
      (key : Bytes) (w : Text × Bytes)
      → dev.protect dev.instance_name key ≡ some w
      → (is_nil w.1 ≡ false) × (ltb 1_048_576 (length w.1) ≡ false)
  pub aead :
      (key nonce plain : Bytes)
      → nat_eq (length key) 32 ≡ true
      → nat_eq (length nonce) 12 ≡ true
      → dev.aead_open key nonce (associated dev) (dev.aead_seal key nonce (associated dev) plain)
        ≡ some plain

create-IsOpened :
    (dev : Device) (a : Attempt) (s : Session)
    → IsDependable dev a
    → create dev a ≡ ok s
    → IsOpened dev s
unfolding create bad_envelope
create-IsOpened dev a s good h =
    let key = bind-eq-ok (or_fail a.random_key _) _ h in
    let wrapped = bind-eq-ok (or_fail (dev.protect dev.instance_name key.0) _) _ key.2 in
    let reopened =
      bind-eq-ok (or_fail (dev.unprotect dev.instance_name wrapped.0.0 wrapped.0.1) _) _
        wrapped.2 in
    let agree = bind-eq-ok (fail_if (not (text_eq reopened.0 key.0)) _) _ reopened.2 in
    let bounds = good.wrapped_length key.0 wrapped.0 (or_fail-eq-ok _ _ wrapped.1) in
    let recovered = (text_eq_iff reopened.0 key.0).0 (fail_if-not-eq-ok _ _ agree.1) in
    rw (← ok-injective agree.2) (
      rw (text_eq_refl, bounds.0, bounds.1),
      cc (
        or_fail-eq-ok (dev.unprotect dev.instance_name wrapped.0.0 wrapped.0.1) _ reopened.1,
        recovered,
      ),
      good.key_length key.0 (or_fail-eq-ok _ _ key.1),
    )

from_read-IsOpened :
    (dev : Device) (a : Attempt) (r : Result StoreError Session) (s : Session)
    → IsDependable dev a
    → (r ≡ ok s → IsOpened dev s)
    → open_or_create dev a r ≡ ok s
    → IsOpened dev s
unfolding open_or_create
from_read-IsOpened dev a (ok session) s good known h = known h
from_read-IsOpened dev a (err e) s good known h = ground (arith, create-IsOpened dev a s good)

open_or_create-IsOpened :
    (dev : Device) (a : Attempt) (disk : Disk) (s : Session)
    → IsDependable dev a
    → open_or_create dev a (read dev false disk) ≡ ok s
    → IsOpened dev s
open_or_create-IsOpened dev a disk s good =
    from_read-IsOpened dev a (read dev false disk) s good (read-IsOpened dev disk s)

-- The JSON of the file and of its data reads back, and the file is within its bound.
pub record ReadsBack (dev : Device) (enc : Envelope) (d : Data) : Type 0 where
  pub envelope_reads : dev.decode_envelope (dev.encode_envelope enc) ≡ some enc
  pub data_reads : dev.decode_data (dev.encode_data d) ≡ some d
  pub fits : ltb max_store_size (length (dev.encode_envelope enc)) ≡ false

open_sealed :
    (dev : Device) (a : Attempt) (s : Session) (nonce : Bytes) (d : Data)
    → IsDependable dev a
    → IsOpened dev s
    → nat_eq (length nonce) 12 ≡ true
    → eq_ℤ d.version (pos 1) ≡ true
    → ReadsBack dev (sealed dev s nonce d) d
    → open_file dev (dev.encode_envelope (sealed dev s nonce d))
      ≡ ok (record { opened = d; envelope = sealed dev s nonce d; key = s.key })
unfolding open_file sealed bad_envelope
open_sealed dev a s nonce d good opened long version reads = rw (
  reads.envelope_reads,
  opened.0,
  opened.1,
  opened.2,
  long,
  good.aead s.key nonce (dev.encode_data d) opened.2 long,
  reads.data_reads,
  version,
)

commit-eq-ok :
    (a : Attempt) (disk : Disk) (r : Result StoreError Bytes)
    → (commit a disk r).1 ≡ ok tt
    → (bytes : Bytes) × (r ≡ ok bytes) × ((commit a disk r).0 ≡ placed file_path bytes disk)
unfolding commit
commit-eq-ok a disk (err e) h = cc h
commit-eq-ok a disk (ok bytes) h =
    (bytes, refl, write_private-eq-ok file_path a.writing bytes disk h)

stage-eq-ok :
    (dev : Device) (a : Attempt) (change : Data → Result StoreError Data) (s : Session) (d : Data)
    (bytes : Bytes)
    → change s.opened ≡ ok d
    → stage dev a change s ≡ ok bytes
    → (nonce : Bytes) × (a.random_nonce ≡ some nonce)
      × (dev.encode_envelope (sealed dev s nonce d) ≡ bytes)
unfolding stage
stage-eq-ok dev a change s d bytes changed h =
    let change_done = bind-eq-ok (change s.opened) _ h in
    let going_on = bind-eq-ok (fail_if a.cancelled_after_change _) _ change_done.2 in
    let small =
      bind-eq-ok (fail_if (ltb 16_777_216 (length (dev.encode_data change_done.0))) _) _
        going_on.2 in
    let nonce = bind-eq-ok (or_fail a.random_nonce _) _ small.2 in
    let still = bind-eq-ok (fail_if a.cancelled_before_write _) _ nonce.2 in
    let unlocked = bind-eq-ok (check_locked a.last_marker) _ still.2 in
    let same = ok-injective (sym change_done.1 ∙ changed) in
    (
      nonce.0,
      or_fail-eq-ok _ _ nonce.1,
      ap (λ x. dev.encode_envelope (sealed dev s nonce.0 x)) (sym same) ∙ ok-injective unlocked.2,
    )

commit_lem :
    (dev : Device) (a : Attempt) (change : Data → Result StoreError Data) (disk : Disk)
    → update dev a change disk ≡ commit a disk (prepare dev a change disk)
unfolding update
commit_lem dev a change disk = refl

read_written :
    (dev : Device) (b : Attempt) (disk : Disk) (bytes : Bytes) (s : Session)
    → disk.marker ≡ absent
    → b.lock ≡ ok tt
    → ltb max_store_size (length bytes) ≡ false
    → open_file dev bytes ≡ ok s
    → read_store dev b (placed file_path bytes disk) ≡ ok s.opened
unfolding read_store read look read_private check_locked
read_written dev b disk bytes s free held fits opens = rw (held, free, fits, opens)

-- On a device that is not locked, a change that Update reports as written is what the next Read
-- that gets the file lock gives, from a file that was there before or one that Update has just
-- created: if the device is dependable, the JSON written reads back, and the change keeps
-- version 1.
pub read-update :
    (dev : Device) (a b : Attempt) (change : Data → Result StoreError Data) (disk : Disk)
    (s : Session) (d : Data)
    → IsDependable dev a
    → ((nonce : Bytes) → a.random_nonce ≡ some nonce → ReadsBack dev (sealed dev s nonce d) d)
    → open_or_create dev a (read dev false disk) ≡ ok s
    → change s.opened ≡ ok d
    → eq_ℤ d.version (pos 1) ≡ true
    → disk.marker ≡ absent
    → b.lock ≡ ok tt
    → (update dev a change disk).1 ≡ ok tt
    → read_store dev b (update dev a change disk).0 ≡ ok d
unfolding prepare
read-update dev a b change disk s d good reads opened changed version free held done =
    let committed =
      commit-eq-ok a disk (prepare dev a change disk)
        (ap (λ x. x.1) (sym (commit_lem dev a change disk)) ∙ done) in
    let directory = bind-eq-ok (fail_if a.no_directory io_failed) _ committed.1 in
    let file_lock = bind-eq-ok a.lock _ directory.2 in
    let session = bind-eq-ok (open_or_create dev a (read dev false disk)) _ file_lock.2 in
    let same = ok-injective (sym session.1 ∙ opened) in
    let staged =
      stage-eq-ok dev a change s d committed.0 changed
        (ap (stage dev a change) (sym same) ∙ session.2) in
    let back = reads staged.0 staged.1 in
    let long = good.nonce_length staged.0 staged.1 in
    rw (commit_lem dev a change disk, committed.2, ← staged.2)
      (read_written dev b disk _ _ free held back.fits (
        open_sealed dev a s staged.0 d good (open_or_create-IsOpened dev a disk s good opened) long
          version back))
