-- ===== src/LocalStore/Credentials.antt =====
-- internal/localstore/credentials.go: what a credential must be, which target it belongs to, and
-- whether a key file is still the one that was registered.
use sshm.Prelude.{
  ℤ, pos, ltb_ℤ, Bool, not, ◌&&◌, ◌||◌, List, [], ◌∷◌, ◌++◌, Option, none, some, if◌then◌else◌,
  is_nil, ltb, length,
}
use sshm.Text.{Text, ◌==◌, codes}
unfoldable use sshm.Text.{trim_space, has_prefix, text_eq}
use sshm.Result.{Result, ok, err, ◌>>=◌, ◌>>◌, fail_if}
use sshm.Config.{Server}
use sshm.Prelude.{eq_ℤ}
use sshm.LocalStore.{
  Bytes, Credential, StoreError, not_found, key_file_changed, bad_target, bad_port, no_home,
  no_path, unreadable_key_file, missing_key_file, wrong_count, credential_too_large,
  mixed_credential, bad_key, fingerprint_mismatch, no_proof, invalid_credential, Parsed, signer,
  encrypted, unusable, FileRead, missing, unreadable, content, Target, System,
}

-- path[2:]
abbrev drop_two : Text → Text
drop_two (a ∷ b ∷ path) = path
drop_two path = []

at_home : System → Text → Option Text → Result StoreError Text
at_home sys path none = err no_home
at_home sys path (some home) = ok (sys.join home (drop_two path))

-- if strings.HasPrefix(path, "~/") { … }
unfoldable pub expand_home : System → Text → Result StoreError Text
unfolding at_home has_prefix
expand_home sys path = if has_prefix path (codes "~/") then at_home sys path sys.home else ok path

-- What ssh.ParsePrivateKey, then with the passphrase if there is one, say of the public half.
parsed_public : System → Bytes → Bytes → Parsed → Option Text
parsed_public sys bytes passphrase (signer f) = some f
parsed_public sys bytes passphrase (encrypted f) =
    if is_nil passphrase then f else sys.parse_with_passphrase bytes passphrase
parsed_public sys bytes passphrase unusable =
    if is_nil passphrase then none else sys.parse_with_passphrase bytes passphrase

same_fingerprint : Option Text → Text → Result StoreError (Unit {0})
same_fingerprint none saved = err key_file_changed
same_fingerprint (some f) saved = fail_if (not (f == saved)) key_file_changed

check_content : System → Credential → Bool → FileRead → Result StoreError (Unit {0})
unfolding parsed_public same_fingerprint
check_content sys saved allow_missing missing =
    if allow_missing then ok tt else err missing_key_file
check_content sys saved allow_missing unreadable = err unreadable_key_file
check_content sys saved allow_missing (content bytes) =
    if not (is_nil saved.key) && text_eq bytes saved.key
    then ok tt
    else same_fingerprint (parsed_public sys bytes saved.passphrase (sys.parse_key bytes))
        saved.fingerprint

-- checkKeyFile; with `allow_missing` it is verifyKeyFile.
unfoldable pub check_key_file : System → Text → Credential → Bool → Result StoreError (Unit {0})
unfolding check_content
check_key_file sys path saved allow_missing = do
  expanded ← expand_home sys path
  check_content sys saved allow_missing (sys.read_file expanded)

-- Credential.Signer, as the fingerprint of the key.
unlock_key : System → Credential → Parsed → Option Text
unlock_key sys c (signer f) = some f
unlock_key sys c (encrypted f) =
    if is_nil c.passphrase then none else sys.parse_with_passphrase c.key c.passphrase
unlock_key sys c unusable = none

match_fingerprint : Credential → Option Text → Result StoreError Text
match_fingerprint c none = err bad_key
match_fingerprint c (some f) =
    if not (is_nil c.fingerprint) && not (f == c.fingerprint)
    then err fingerprint_mismatch
    else ok f

unfoldable pub key_signer : System → Credential → Result StoreError Text
unfolding unlock_key match_fingerprint
key_signer sys c = match_fingerprint c (unlock_key sys c (sys.parse_key c.key))

-- One turn of the loop of validateCredentials, which fills in the fingerprint.
unfoldable pub validate_credential : System → Credential → Result StoreError Credential
validate_credential sys c = do
  fail_if
      (ltb 1_048_576 (length c.key)
        || ltb 65536 (length c.passphrase)
        || ltb 65536 (length c.password))
      credential_too_large
  if not (is_nil c.key)
      then (do
        fail_if (not (is_nil c.password)) mixed_credential
        fingerprint ← key_signer sys c
        fail_if (not (sys.proves c.key c.passphrase)) no_proof
        ok (record c { fingerprint = fingerprint }))
      else (do
        fail_if (is_nil c.password || not (is_nil c.passphrase) || not (is_nil c.fingerprint))
            invalid_credential
        ok c)

unfoldable pub validate_each : System → List Credential → Result StoreError (List Credential)
unfolding validate_credential
validate_each sys [] = ok []
validate_each sys (c ∷ cs) = do
  c' ← validate_credential sys c
  cs' ← validate_each sys cs
  ok (c' ∷ cs')

-- validateCredentials
unfoldable pub validate_credentials : System → List Credential → Result StoreError (List Credential)
unfolding validate_each
validate_credentials sys cs = do
  fail_if (is_nil cs || ltb 32 (length cs)) wrong_count
  validate_each sys cs

abbrev pub auth_cloud : Text
auth_cloud = codes "cloud"

abbrev pub auth_key : Text
auth_key = codes "key"

-- The binding of a credential: neither alias nor route, and the vault only where the entry or the
-- authentication comes from it.
unfoldable pub target_of : Server → ℤ → Target
target_of s port = record {
  host = s.host;
  user = s.user;
  auth = s.auth;
  key = s.key_path;
  entry = s.cloud_entry;
  vault = if is_nil s.cloud_entry && not (s.auth == auth_cloud) then [] else s.cloud_vault;
  port = port;
}

-- Identity
unfoldable pub identity : System → Option Server → Result StoreError Text
unfolding target_of
identity sys none = err bad_target
identity sys (some s) = do
  fail_if (is_nil (trim_space s.host) || is_nil (trim_space s.user)) bad_target
  let port = if eq_ℤ s.port (pos 0) then pos 22 else s.port
  fail_if (ltb_ℤ port (pos 1) || ltb_ℤ (pos 65535) port) bad_port
  ok (sys.target_digest (target_of s port))

digest_path : System → Option Text → Result StoreError Text
digest_path sys none = err no_path
digest_path sys (some path) = ok (codes "keyfile/" ++ sys.path_digest path)

-- keyFileID
unfoldable pub key_file_id : System → Text → Result StoreError Text
unfolding digest_path
key_file_id sys path = do
  expanded ← expand_home sys path
  fail_if (is_nil expanded) not_found
  digest_path sys (sys.abs expanded)
