-- ===== src/Tests/Stores.antt =====
-- A store of credentials on a device that hides nothing.
use sshm.Prelude.{◌⊎◌, List, ℕ, pos, true, false, [], ◌∷◌, none, some, ◌≡◌, refl}
use sshm.Text.{Text, codes, text_eq, trim_space, has_prefix, len}
use sshm.Map.{get, put, remove}
use sshm.Result.{Result, ok, err}
use sshm.Config.{Server}
use sshm.Prelude.{eq_ℤ}
use sshm.LocalStore.{
  Bytes, Credential, Data, Envelope, StoreError, inactive, missing, content, System, signer,
  io_failed,
}
use sshm.LocalStore.Credentials.{identity, validate_credentials, validate_credential, target_of}
use sshm.LocalStore.Staged.{
  put_data, disable_data, put_connection, prepare_credentials, disable_connection, resolve_data,
  set_secret, delete_secrets, without_prefix,
}
use sshm.LocalStore.Staged.Laws.{resolve-disable_then_put, resolve-other_identity}
use sshm.LocalStore.Write.{Disk, Writing, absent, present, write_private}
use sshm.LocalStore.File.{
  Device, Attempt, Session, new_data, read, read_store, open_or_create, create, update, prepare,
  stage, commit, sealed, lock_store, unlock_store, bad_envelope, open_file, read_private,
  check_locked, look, place_marker, lock_held, remove_marker, unlock_opened,
}
use sshm.LocalStore.File.Laws.{IsClosed, update_is_atomic, lock_store-IsClosed, unlock_store-opens}
use sshm.LocalStore.File.RoundTrip.{IsDependable, ReadsBack, read-update}
use sshm.Tests.Data.{server_at}

abbrev secret_data : Data
secret_data = record new_data { secrets = (codes "cloud", 1 ∷ 2 ∷ []) ∷ [] }

abbrev device_key : Bytes
device_key =
    0 ∷ 1 ∷ 2 ∷ 3 ∷ 4 ∷ 5 ∷ 6 ∷ 7 ∷ 8 ∷ 9 ∷ 10 ∷ 11 ∷ 12 ∷ 13 ∷ 14 ∷ 15 ∷ 16 ∷ 17 ∷ 18 ∷ 19 ∷ 20
    ∷ 21 ∷ 22 ∷ 23 ∷ 24 ∷ 25 ∷ 26 ∷ 27 ∷ 28 ∷ 29 ∷ 30 ∷ 31 ∷ []

abbrev device_nonce : Bytes
device_nonce = 0 ∷ 1 ∷ 2 ∷ 3 ∷ 4 ∷ 5 ∷ 6 ∷ 7 ∷ 8 ∷ 9 ∷ 10 ∷ 11 ∷ []

abbrev device_envelope : Envelope
device_envelope = record {
  version = pos 1;
  instance_name = codes "sshm-1";
  backend = codes "plain";
  wrapped_key = device_key;
  nonce = device_nonce;
  ciphertext = 7 ∷ [];
}

abbrev device : Device
device = record {
  instance_name = codes "sshm-1";
  protect = λ name key. some (codes "plain", device_key);
  unprotect = λ name backend wrapped. some wrapped;
  aead_seal = λ key nonce about plain. plain;
  aead_open = λ key nonce about cipher. some cipher;
  encode_envelope = λ enc. enc.ciphertext;
  decode_envelope = λ bytes. some device_envelope;
  encode_data = λ d. 7 ∷ [];
  decode_data = λ bytes. some secret_data;
}

abbrev calm : Writing
calm = record {
  refuses = false;
  creates = true;
  protects = true;
  stops_after = none;
  syncs = true;
  closes = true;
  renames = true;
  syncs_directory = true;
}

abbrev attempt : Attempt
attempt = record {
  no_directory = false;
  lock = ok tt;
  random_key = some device_key;
  random_nonce = some device_nonce;
  cancelled_after_change = false;
  cancelled_before_write = false;
  last_marker = absent;
  writing = calm;
  removes_marker = true;
}

abbrev fresh_disk : Disk
fresh_disk = record { file = missing; marker = absent; temporary = none }

abbrev used_disk : Disk
used_disk = record { file = content (7 ∷ []); marker = absent; temporary = none }

abbrev locked_disk : Disk
locked_disk = record { file = content (7 ∷ []); marker = present; temporary = none }

abbrev first_session : Session
first_session = record {
  opened = new_data;
  envelope = record device_envelope { nonce = []; ciphertext = [] };
  key = device_key;
}

store_cloud : Data → Result StoreError Data
unfolding set_secret
store_cloud = set_secret (codes "cloud") (1 ∷ 2 ∷ [])

some-injective : {A : Type 0} {a b : A} → some a ≡ some b → a ≡ b
some-injective h = cc h

device-IsDependable : IsDependable device attempt
device-IsDependable = record {
  key_length = λ key h. rw (← some-injective h) refl;
  nonce_length = λ nonce h. rw (← some-injective h) refl;
  wrapped_length = λ key w h. rw (← some-injective h) (refl, refl);
  aead = λ key nonce plain _ _. refl;
}

-- The binding of a target is its host.
system : System
system = record {
  target_digest = λ t. t.host;
  path_digest = λ p. p;
  home = none;
  join = λ a b. b;
  abs = λ p. some p;
  read_file = λ p. missing;
  parse_key = λ k. signer k;
  parse_with_passphrase = λ k p. some k;
  proves = λ k p. true;
}

abbrev password : Credential
password = record { key = []; passphrase = []; password = codes "pw"; fingerprint = [] }

abbrev here : Server
here = server_at "web.example"

abbrev there : Server
there = server_at "db.example"

abbrev web_id : Text
web_id = codes "web.example"

abbrev db_id : Text
db_id = codes "db.example"

disabled_data : Data
disabled_data = record new_data { disabled = (web_id, true) ∷ [] }

active_data : Data
active_data = record new_data { connections = (web_id, password ∷ []) ∷ [] }

-- What a test of a transaction computes with.
computing : Unit {0}
unfolding store_cloud set_secret new_data read read_store open_or_create create update prepare stage
    commit sealed bad_envelope open_file read_private check_locked look write_private lock_store
    unlock_store place_marker lock_held remove_marker unlock_opened text_eq put get len identity
    trim_space validate_credentials validate_credential put_data disable_data prepare_credentials
    put_connection disable_connection target_of system disabled_data active_data remove
    delete_secrets without_prefix has_prefix
computing = tt

device-ReadsBack :
    (nonce : Bytes)
    → attempt.random_nonce ≡ some nonce
    → ReadsBack device (sealed device first_session nonce secret_data) secret_data
unfolding computing
device-ReadsBack nonce h =
    rw (← some-injective h) (record { envelope_reads = refl; data_reads = refl; fits = refl })

first_update-eq-ok : (update device attempt store_cloud fresh_disk).1 ≡ ok tt
unfolding computing
first_update-eq-ok = refl

created : open_or_create device attempt (read device false fresh_disk) ≡ ok first_session
unfolding computing
created = refl

changed : store_cloud first_session.opened ≡ ok secret_data
unfolding computing
changed = refl

dated : eq_ℤ secret_data.version (pos 1) ≡ true
unfolding new_data
dated = refl

read-update_example :
    read_store device attempt (update device attempt store_cloud fresh_disk).0 ≡ ok secret_data
read-update_example =
    read-update device attempt attempt store_cloud fresh_disk first_session secret_data
      device-IsDependable device-ReadsBack created changed dated refl refl first_update-eq-ok

-- The disk is full after the first byte.
full : Attempt
full = record attempt { writing = record calm { stops_after = some 1 } }

full-eq-err : (update device full store_cloud used_disk).1 ≡ err io_failed
unfolding computing full
full-eq-err = refl

update_is_atomic_example :
    ((update device full store_cloud used_disk).0 ≡ used_disk)
    ⊎ ((full.writing.syncs_directory ≡ false)
        × ((bytes : List ℕ) × ((prepare device full store_cloud used_disk ≡ ok bytes)
              × ((update device full store_cloud used_disk).0
                  ≡ record used_disk { file = content bytes; temporary = none }))))
update_is_atomic_example =
    update_is_atomic device full store_cloud used_disk io_failed refl full-eq-err

locking : (lock_store attempt used_disk).1 ≡ ok tt
unfolding computing
locking = refl

lock_store-IsClosed_example :
    IsClosed device (lock_store attempt used_disk).0
    × ((lock_store attempt used_disk).0.file ≡ used_disk.file)
lock_store-IsClosed_example = lock_store-IsClosed device attempt used_disk locking

unlocking : (unlock_store device attempt locked_disk).1 ≡ ok tt
unfolding computing
unlocking = refl

unlock_store-opens_example :
    (d : Data) × (read_store device attempt (unlock_store device attempt locked_disk).0 ≡ ok d)
    × ((unlock_store device attempt locked_disk).0.file ≡ locked_disk.file)
unlock_store-opens_example = unlock_store-opens device attempt attempt locked_disk refl unlocking

set_cloud : set_secret (codes "cloud") (1 ∷ 2 ∷ []) new_data ≡ ok secret_data
unfolding computing
set_cloud = refl

disabling : disable_data system (some here) new_data ≡ ok disabled_data
unfolding computing
disabling = refl

registering : put_data system (some here) (password ∷ []) disabled_data ≡ ok active_data
unfolding computing
registering = refl

registering_new : put_data system (some here) (password ∷ []) new_data ≡ ok active_data
unfolding computing
registering_new = refl

resolve-disable_then_put_example :
    (resolve_data system disabled_data here ≡ err inactive)
    × (disabled_data.connections ≡ new_data.connections)
    × (resolve_data system active_data here ≡ validate_credentials system (password ∷ []))
unfolding text_eq
resolve-disable_then_put_example =
    resolve-disable_then_put system here (password ∷ []) new_data disabled_data active_data
      disabling registering refl

there-identity : identity system (some there) ≡ ok db_id
unfolding computing
there-identity = refl

here-identity : identity system (some here) ≡ ok web_id
unfolding computing
here-identity = refl

resolve-other_identity_example :
    (resolve_data system active_data there ≡ resolve_data system new_data there)
    × (resolve_data system disabled_data there ≡ resolve_data system new_data there)
resolve-other_identity_example =
    resolve-other_identity system here there (password ∷ []) db_id new_data active_data
      disabled_data there-identity (λ h. cc (h, here-identity)) registering_new disabling
