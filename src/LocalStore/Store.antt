-- ===== src/LocalStore/Store.antt =====
-- internal/localstore/store.go: the operations of the store, each one transaction on the file.
use sshm.Prelude.{◌||◌, List, [], ◌∷◌, Option, some, is_nil, ltb, length, if◌then◌else◌}
use sshm.Text.{Text, len}
use sshm.Map.{get}
use sshm.Result.{Result, ok, err, ◌>>=◌, fail_if}
use sshm.Config.{Server}
use sshm.LocalStore.{Bytes, Credential, Data, StoreError, invalid_secret, System}
use sshm.LocalStore.Credentials.{validate_credentials, identity, key_file_id}
use sshm.LocalStore.Staged.{
  put_connection, prepare_credentials, resolve_connection, disable_connection, set_secret,
  delete_secrets,
}
unfoldable use sshm.LocalStore.Staged.{first_of_one, found_key_file, secret}
use sshm.LocalStore.Write.{Disk}
use sshm.LocalStore.File.{Device, Attempt, read_store, update}
unfoldable use sshm.LocalStore.File.{enabled}

abbrev pub Outcome : Type 0
Outcome = Disk × Result StoreError (Unit {0})

-- An argument that is refused leaves the file alone.
abbrev pub checked {ℓ} : {A : Type ℓ} → Disk → Result StoreError A → (A → Outcome) → Outcome
checked disk (err e) run = (disk, err e)
checked disk (ok a) run = run a

-- Put
unfoldable pub put_store :
    System → Device → Attempt → Option Server → List Credential → Disk → Outcome
put_store sys dev a target credentials disk =
    checked disk (prepare_credentials sys target credentials)
      (λ prepared. update dev a (λ d. ok (put_connection prepared.0 prepared.1 d)) disk)

-- Resolve
unfoldable pub resolve_store :
    System → Device → Attempt → Server → Disk → Result StoreError (List Credential)
resolve_store sys dev a target disk = do
  id ← identity sys (some target)
  d ← read_store dev a disk
  resolve_connection sys d id target

-- Disable
unfoldable pub disable_store : System → Device → Attempt → Option Server → Disk → Outcome
disable_store sys dev a target disk =
    checked disk (identity sys target) (λ id. update dev a (λ d. ok (disable_connection id d)) disk)

remembered_in : Text → List Credential → Data → Data
unfolding first_of_one
remembered_in id cs d = record d { key_files = first_of_one cs d.key_files id }

-- RememberKeyFile
unfoldable pub remember_store : System → Device → Attempt → Text → Credential → Disk → Outcome
unfolding remembered_in
remember_store sys dev a path c disk = checked disk (key_file_id sys path) (λ id.
    checked disk (validate_credentials sys (c ∷ []))
      (λ cs. update dev a (λ d. ok (remembered_in id cs d)) disk))

-- KeyFile
unfoldable pub key_file_store :
    System → Device → Attempt → Text → Disk → Result StoreError Credential
unfolding found_key_file
key_file_store sys dev a path disk = do
  id ← key_file_id sys path
  d ← read_store dev a disk
  found_key_file (get id d.key_files)

-- SetSecret
unfoldable pub set_secret_store : Device → Attempt → Text → Bytes → Disk → Outcome
set_secret_store dev a name value disk =
    checked disk
      (fail_if (is_nil name || ltb 256 (len name) || ltb 1_048_576 (length value)) invalid_secret)
      (λ _. update dev a (set_secret name value) disk)

-- Secret
unfoldable pub secret_store : Device → Attempt → Text → Disk → Result StoreError Bytes
unfolding secret
secret_store dev a name disk = do d ← read_store dev a disk; secret name d

-- DeleteSecrets
unfoldable pub delete_secrets_store : Device → Attempt → Text → Disk → Outcome
unfolding enabled
delete_secrets_store dev a prefix disk =
    if enabled disk.file
    then update dev a (λ d. ok (delete_secrets prefix d)) disk
    else (disk, ok tt)

discard : Result StoreError Data → Result StoreError (Unit {0})
discard (err e) = err e
discard (ok d) = ok tt

-- Ensure
unfoldable pub ensure_store : Device → Attempt → Disk → Outcome
unfolding enabled discard
ensure_store dev a disk =
    if enabled disk.file then (disk, discard (read_store dev a disk)) else update dev a ok disk
