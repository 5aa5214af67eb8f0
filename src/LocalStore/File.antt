-- ===== src/LocalStore/File.antt =====
-- internal/localstore/store.go: transactions on the credentials file, and the device lock.
pub mod Laws
pub mod RoundTrip
use sshm.Prelude.{
  ℕ, ℤ, pos, Bool, true, false, not, ◌||◌, List, [], ◌∷◌, ◌++◌, Option, none, some, if◌then◌else◌,
  is_nil, ltb, nat_eq, length,
}
use sshm.Text.{Text, ◌==◌, codes}
unfoldable use sshm.Text.{text_eq}
use sshm.Result.{Result, ok, err, ◌>>=◌, ◌>>◌, fail_if}
use sshm.Prelude.{eq_ℤ}
use sshm.LocalStore.Write.{Marker, absent, present, unclear, Disk, Writing, file_path, marker_path}
unfoldable use sshm.LocalStore.Write.{write_private}
use sshm.LocalStore.{
  Bytes, Data, Envelope, StoreError, not_found, locked, corrupt, cancelled, too_large,
  protection_failed, random_failed, io_failed, FileRead, missing, unreadable, content,
}

-- The device: its key protection, AES-GCM under the associated data of this instance, and the JSON
-- of the file and of the data.
pub record Device : Type 0 where
  pub instance_name : Text
  pub protect : Text → Bytes → Option (Text × Bytes)
  pub unprotect : Text → Text → Bytes → Option Bytes
  pub aead_seal : Bytes → Bytes → Text → Bytes → Bytes
  pub aead_open : Bytes → Bytes → Text → Bytes → Option Bytes
  pub encode_envelope : Envelope → Bytes
  pub decode_envelope : Bytes → Option Envelope
  pub encode_data : Data → Bytes
  pub decode_data : Bytes → Option Data

-- What one call meets: directory, file lock, random bytes, cancellation, the last look at the
-- marker, the calls of writePrivate, and the removal of the marker.
pub record Attempt : Type 0 where
  pub no_directory : Bool
  pub lock : Result StoreError (Unit {0})
  pub random_key : Option Bytes
  pub random_nonce : Option Bytes
  pub cancelled_after_change : Bool
  pub cancelled_before_write : Bool
  pub last_marker : Marker
  pub writing : Writing
  pub removes_marker : Bool

-- An opened store.
pub record Session : Type 0 where
  pub opened : Data
  pub envelope : Envelope
  pub key : Bytes

abbrev pub max_store_size : ℕ
max_store_size = 33_554_432

abbrev pub or_fail {ℓ} : {A : Type ℓ} → Option A → StoreError → Result StoreError A
or_fail none e = err e
or_fail (some a) e = ok a

-- CheckLocked
unfoldable pub check_locked : Marker → Result StoreError (Unit {0})
check_locked absent = ok tt
check_locked present = err locked
check_locked unclear = err io_failed

-- readPrivate
unfoldable pub read_private : FileRead → Result StoreError Bytes
read_private missing = err not_found
read_private unreadable = err io_failed
read_private (content b) = if ltb max_store_size (length b) then err corrupt else ok b

abbrev pub associated : Device → Text
associated dev = dev.instance_name ++ codes "/data/v1"

unfoldable pub bad_envelope : Device → Envelope → Bool
bad_envelope dev enc =
    not (eq_ℤ enc.version (pos 1))
    || not (text_eq enc.instance_name dev.instance_name)
    || ltb 1_048_576 (length enc.wrapped_key)
    || is_nil enc.wrapped_key

-- The part of read after the file is read.
unfoldable pub open_file : Device → Bytes → Result StoreError Session
open_file dev bytes = do
  enc ← or_fail (dev.decode_envelope bytes) corrupt
  fail_if (bad_envelope dev enc) corrupt
  key ← or_fail (dev.unprotect dev.instance_name enc.backend enc.wrapped_key) protection_failed
  fail_if (not (nat_eq (length key) 32)) corrupt
  fail_if (not (nat_eq (length enc.nonce) 12)) corrupt
  plain ← or_fail (dev.aead_open key enc.nonce (associated dev) enc.ciphertext) corrupt
  d ← or_fail (dev.decode_data plain) corrupt
  fail_if (not (eq_ℤ d.version (pos 1))) corrupt
  ok (record { opened = d; envelope = enc; key = key })

-- read
unfoldable pub read : Device → Bool → Disk → Result StoreError Session
unfolding check_locked read_private
read dev allow_locked disk = do
  if allow_locked then ok tt else check_locked disk.marker
  bytes ← read_private disk.file
  open_file dev bytes

-- The Lstat that Read and Enabled start with.
unfoldable pub look : FileRead → Result StoreError (Unit {0})
look missing = err not_found
look unreadable = ok tt
look (content b) = ok tt

-- Read
unfoldable pub read_store : Device → Attempt → Disk → Result StoreError Data
unfolding look read
read_store dev a disk = do look disk.file; a.lock; session ← read dev false disk; ok session.opened

abbrev pub new_data : Data
new_data = record { version = pos 1; connections = []; secrets = []; key_files = []; disabled = [] }

-- The first use of Update: a new key, accepted if the device gives it back.
unfoldable pub create : Device → Attempt → Result StoreError Session
create dev a = do
  key ← or_fail a.random_key random_failed
  wrapped ← or_fail (dev.protect dev.instance_name key) protection_failed
  reopened ← or_fail (dev.unprotect dev.instance_name wrapped.0 wrapped.1) protection_failed
  fail_if (not (text_eq reopened key)) corrupt
  ok (record {
    opened = new_data;
    envelope = record {
      version = pos 1;
      instance_name = dev.instance_name;
      backend = wrapped.0;
      wrapped_key = wrapped.1;
      nonce = [];
      ciphertext = [];
    };
    key = key;
  })

-- errors.Is(e, ErrNotFound)
is_not_found : StoreError → Bool
is_not_found not_found = true
is_not_found e = false

-- A missing file is created, any other error is returned.
unfoldable pub open_or_create :
    Device → Attempt → Result StoreError Session → Result StoreError Session
unfolding create is_not_found
open_or_create dev a (ok session) = ok session
open_or_create dev a (err e) = if is_not_found e then create dev a else err e

-- The envelope that Update writes.
unfoldable pub sealed : Device → Session → Bytes → Data → Envelope
sealed dev session nonce d = record session.envelope {
  nonce = nonce;
  ciphertext = dev.aead_seal session.key nonce (associated dev) (dev.encode_data d);
}

-- Update after the session is open, up to the write.
unfoldable pub stage :
    Device → Attempt → (Data → Result StoreError Data) → Session → Result StoreError Bytes
unfolding sealed
stage dev a change session = do
  d ← change session.opened
  fail_if a.cancelled_after_change cancelled
  fail_if (ltb 16_777_216 (length (dev.encode_data d))) too_large
  nonce ← or_fail a.random_nonce random_failed
  fail_if a.cancelled_before_write cancelled
  check_locked a.last_marker
  ok (dev.encode_envelope (sealed dev session nonce d))

unfoldable pub prepare :
    Device → Attempt → (Data → Result StoreError Data) → Disk → Result StoreError Bytes
unfolding open_or_create stage
prepare dev a change disk = do
  fail_if a.no_directory io_failed
  a.lock
  session ← open_or_create dev a (read dev false disk)
  stage dev a change session

unfoldable pub commit :
    Attempt → Disk → Result StoreError Bytes → Disk × Result StoreError (Unit {0})
unfolding write_private
commit a disk (err e) = (disk, err e)
commit a disk (ok bytes) = write_private file_path a.writing bytes disk

-- Update
unfoldable pub update :
    Device → Attempt → (Data → Result StoreError Data) → Disk → Disk × Result StoreError (Unit {0})
unfolding prepare commit
update dev a change disk = commit a disk (prepare dev a change disk)

unfoldable pub enabled : FileRead → Bool
enabled missing = false
enabled unreadable = true
enabled (content b) = true

-- Lock, once the file lock is held.
unfoldable pub place_marker : Writing → Disk → Disk × Result StoreError (Unit {0})
unfolding write_private
place_marker w disk = write_private marker_path w (codes "explicit device lock\n") disk

unfoldable pub lock_held :
    Attempt → Result StoreError (Unit {0}) → Disk → Disk × Result StoreError (Unit {0})
unfolding place_marker
lock_held a (err e) disk = (disk, err e)
lock_held a (ok _) disk = place_marker a.writing disk

-- Lock
unfoldable pub lock_store : Attempt → Disk → Disk × Result StoreError (Unit {0})
unfolding lock_held look
lock_store a disk = lock_held a (look disk.file >> a.lock) disk

-- os.Remove of the marker, which may be gone already.
unfoldable pub remove_marker : Bool → Marker → Disk → Disk × Result StoreError (Unit {0})
remove_marker removes absent disk = (disk, ok tt)
remove_marker true m disk = (record disk { marker = absent }, ok tt)
remove_marker false m disk = (disk, err io_failed)

unfoldable pub unlock_opened :
    Attempt → Result StoreError Session → Disk → Disk × Result StoreError (Unit {0})
unfolding remove_marker
unlock_opened a (err e) disk = (disk, err e)
unlock_opened a (ok session) disk = remove_marker a.removes_marker disk.marker disk

-- Unlock opens the store despite the marker before it removes it.
unfoldable pub unlock_store : Device → Attempt → Disk → Disk × Result StoreError (Unit {0})
unfolding unlock_opened read
unlock_store dev a disk = unlock_opened a (a.lock >> read dev true disk) disk
