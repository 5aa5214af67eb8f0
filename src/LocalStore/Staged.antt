-- ===== src/LocalStore/Staged.antt =====
-- internal/localstore/store.go: the operations on opened data, which a transaction stages.
pub mod Laws
use sshm.Prelude.{
  ℕ, Bool, true, false, not, ◌&&◌, ◌||◌, List, [], ◌∷◌, Option, none, some, if◌then◌else◌, is_nil,
  ltb, length,
}
use sshm.Text.{Text, ◌==◌, codes}
unfoldable use sshm.Text.{has_prefix, len, text_eq}
use sshm.Map.{Map}
unfoldable use sshm.Map.{get, put, remove}
use sshm.Result.{Result, ok, err, ◌>>=◌, ◌>>◌, fail_if}
use sshm.Config.{Server}
use sshm.LocalStore.{
  Bytes, Credential, Data, StoreError, not_found, inactive, invalid_secret, System,
}
use sshm.LocalStore.Credentials.{auth_key}
unfoldable use sshm.LocalStore.Credentials.{
  check_key_file, validate_credentials, identity, key_file_id,
}

-- put
unfoldable pub put_connection : Text → List Credential → Data → Data
put_connection id cs d = record d {
  connections = put id cs d.connections;
  disabled = remove id d.disabled;
}

-- prepareCredentials
unfoldable pub prepare_credentials :
    System → Option Server → List Credential → Result StoreError (Text × List Credential)
prepare_credentials sys target credentials = do
  id ← identity sys target
  cs ← validate_credentials sys credentials
  ok (id, cs)

-- Data.Put
unfoldable pub put_data : System → Option Server → List Credential → Data → Result StoreError Data
unfolding put_connection prepare_credentials
put_data sys target credentials d = do
  prepared ← prepare_credentials sys target credentials
  ok (put_connection prepared.0 prepared.1 d)

-- disable
unfoldable pub disable_connection : Text → Data → Data
disable_connection id d = record d { disabled = put id true d.disabled }

-- Data.Disable
unfoldable pub disable_data : System → Option Server → Data → Result StoreError Data
unfolding disable_connection
disable_data sys target d = do id ← identity sys target; ok (disable_connection id d)

abbrev pub is_disabled : Option Bool → Bool
is_disabled none = false
is_disabled (some b) = b

abbrev pub list_at : Option (List Credential) → List Credential
list_at none = []
list_at (some cs) = cs

abbrev pub names_key_file : Server → Bool
names_key_file target = target.auth == auth_key && not (is_nil target.key_path)

one_key_file : Option Credential → List Credential
one_key_file none = []
one_key_file (some c) = c ∷ []

remembered : Data → Result StoreError Text → List Credential
unfolding one_key_file
remembered d (err e) = []
remembered d (ok id) = one_key_file (get id d.key_files)

-- The credentials of the connection, or else those of its remembered key file.
unfoldable pub candidates : System → Data → Text → Server → List Credential
unfolding remembered
candidates sys d id target =
    let cs = list_at (get id d.connections) in
    if is_nil cs && names_key_file target
    then remembered d (key_file_id sys target.key_path)
    else cs

-- The loop that verifies the key file against each credential with a key.
verify_key_files : System → Text → List Credential → Result StoreError (Unit {0})
verify_key_files sys path [] = ok tt
verify_key_files sys path (c ∷ cs) = do
  if not (is_nil c.key) then check_key_file sys path c true else ok tt
  verify_key_files sys path cs

-- resolve
unfoldable pub resolve_connection :
    System → Data → Text → Server → Result StoreError (List Credential)
unfolding candidates verify_key_files
resolve_connection sys d id target = do
  fail_if (is_disabled (get id d.disabled)) inactive
  let cs = candidates sys d id target
  fail_if (is_nil cs) not_found
  if names_key_file target then verify_key_files sys target.key_path cs else ok tt
  ok cs

-- Data.Resolve
unfoldable pub resolve_data : System → Data → Server → Result StoreError (List Credential)
unfolding resolve_connection
resolve_data sys d target = do id ← identity sys (some target); resolve_connection sys d id target

-- The change of RememberKeyFile.
unfoldable pub first_of_one : List Credential → Map Credential → Text → Map Credential
first_of_one [] m id = m
first_of_one (c ∷ cs) m id = put id c m

unfoldable pub remember_key_file : System → Text → Credential → Data → Result StoreError Data
unfolding first_of_one
remember_key_file sys path c d = do
  id ← key_file_id sys path
  cs ← validate_credentials sys (c ∷ [])
  ok (record d { key_files = first_of_one cs d.key_files id })

unfoldable pub found_key_file : Option Credential → Result StoreError Credential
found_key_file none = err not_found
found_key_file (some c) = ok c

-- KeyFile, on opened data.
unfoldable pub key_file : System → Text → Data → Result StoreError Credential
unfolding found_key_file
key_file sys path d = do id ← key_file_id sys path; found_key_file (get id d.key_files)

-- SetSecret
unfoldable pub set_secret : Text → Bytes → Data → Result StoreError Data
set_secret name value d = do
  fail_if (is_nil name || ltb 256 (len name) || ltb 1_048_576 (length value)) invalid_secret
  ok (record d { secrets = put name value d.secrets })

found_secret : Option Bytes → Result StoreError Bytes
found_secret none = err not_found
found_secret (some b) = ok b

-- Secret, on opened data.
unfoldable pub secret : Text → Data → Result StoreError Bytes
unfolding found_secret
secret name d = found_secret (get name d.secrets)

-- The loop of DeleteSecrets.
unfoldable pub without_prefix : Text → Map Bytes → Map Bytes
without_prefix prefix [] = []
without_prefix prefix ((k, b) ∷ m) =
    let rest = without_prefix prefix m in if has_prefix k prefix then rest else (k, b) ∷ rest

unfoldable pub delete_secrets : Text → Data → Data
unfolding without_prefix
delete_secrets prefix d = record d { secrets = without_prefix prefix d.secrets }
