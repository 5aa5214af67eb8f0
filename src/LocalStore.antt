-- ===== src/LocalStore.antt =====
-- internal/localstore: the credentials of this device, in one file that the device protects.
pub mod Credentials
pub mod Staged
pub mod File
pub mod Store
pub mod Write
use sshm.Prelude.{ℕ, ℤ, Bool, List, [], ◌∷◌, Option, none, some}
use sshm.Text.{Text}
use sshm.Map.{Map}

abbrev pub Bytes : Type 0
Bytes = List ℕ

pub record Credential : Type 0 where
  pub key : Bytes
  pub passphrase : Bytes
  pub password : Bytes
  pub fingerprint : Text

-- The map of disabled connections may be nil in the source; reading it is then reading an empty one.
pub record Data : Type 0 where
  pub version : ℤ
  pub connections : Map (List Credential)
  pub secrets : Map Bytes
  pub key_files : Map Credential
  pub disabled : Map Bool

-- The file holds the data, encrypted by a key that the device wraps.
pub record Envelope : Type 0 where
  pub version : ℤ
  pub instance_name : Text
  pub backend : Text
  pub wrapped_key : Bytes
  pub nonce : Bytes
  pub ciphertext : Bytes

pub data StoreError : Type 0 where
  not_found inactive locked corrupt key_file_changed : StoreError
  cancelled too_large protection_failed random_failed : StoreError
  bad_target bad_port no_home no_path unreadable_key_file missing_key_file : StoreError
  wrong_count credential_too_large mixed_credential bad_key fingerprint_mismatch : StoreError
  no_proof invalid_credential invalid_secret io_failed : StoreError

-- What a key of golang.org/x/crypto/ssh turns out to be: usable, with its fingerprint; encrypted,
-- with the fingerprint of its public half if the file shows it; or not a key.
pub data Parsed : Type 0 where
  signer : Text → Parsed
  encrypted : Option Text → Parsed
  unusable : Parsed

pub data FileRead : Type 0 where
  missing unreadable : FileRead
  content : Bytes → FileRead

-- What Identity hashes.
pub record Target : Type 0 where
  pub host : Text
  pub user : Text
  pub auth : Text
  pub key : Text
  pub entry : Text
  pub vault : Text
  pub port : ℤ

-- The outside of the component: SHA-256 in hexadecimal, the paths and files of the system, and the
-- SSH library. `proves` is the signing of a challenge and its verification.
pub record System : Type 0 where
  pub target_digest : Target → Text
  pub path_digest : Text → Text
  pub home : Option Text
  pub join : Text → Text → Text
  pub abs : Text → Option Text
  pub read_file : Text → FileRead
  pub parse_key : Bytes → Parsed
  pub parse_with_passphrase : Bytes → Bytes → Option Text
  pub proves : Bytes → Bytes → Bool
