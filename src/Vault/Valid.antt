-- ===== src/Vault/Valid.antt =====
-- internal/cloudsync/data.go: what a vault must look like to be stored.
use sshm.Prelude.{
  ℕ, pos, ltb_ℤ, Bool, false, not, ◌&&◌, ◌||◌, List, [], ◌∷◌, ◌++◌, Option, ltb, leb, nat_eq,
  length, elements, every, is_nil,
}
use sshm.Text.{Text, ◌==◌, codes}
unfoldable use sshm.Text.{trim_space, contains_any, len}
use sshm.Map.{Map, is_some}
unfoldable use sshm.Map.{get}
unfoldable use sshm.Inventory.{valid}
use sshm.Inventory.{Snapshot}
use sshm.Config.Metadata.{control}
unfoldable use sshm.Config.Metadata.{normalize_platform, validate_server_metadata_bounds}
use sshm.Result.{Result, ok, err, ◌>>◌, fail_if}
use sshm.Vault.{Credential, Entry, Activity, Data, Env}
use sshm.Prelude.{eq_ℤ}
use sshm.Vault.Entries.{entries_of}

pub data VaultError : Type 0 where
  invalid_format too_many_activities too_many_devices : VaultError
  invalid_hardware invalid_server_hardware invalid_activity invalid_activity_platform : VaultError
  invalid_entry key_path_in_entry invalid_login invalid_metadata invalid_alias : VaultError
  missing_credential invalid_credential immutable_credential : VaultError
  entry_not_found not_password_auth conflict_unresolved alias_ambiguous : VaultError
  conflict_not_found choose_a_side : VaultError

is_id_char : ℕ → Bool
is_id_char c =
    (leb b'a' c && leb c b'z')
    || (leb b'A' c && leb c b'Z')
    || (leb b'0' c && leb c b'9')
    || nat_eq c b'_'
    || nat_eq c b'-'

-- ^[a-zA-Z0-9_-]{8,100}$
unfoldable pub valid_id : Text → Bool
unfolding is_id_char
valid_id s = leb 8 (length s) && leb (length s) 100 && every is_id_char s

is_account_char : ℕ → Bool
is_account_char c = (leb b'a' c && leb c b'z') || (leb b'0' c && leb c b'9')

-- ^[a-z0-9][a-z0-9._-]{2,63}$
unfoldable pub valid_account : Text → Bool
unfolding is_account_char
valid_account [] = false
valid_account (c ∷ s) =
    is_account_char c
    && leb 2 (length s)
    && leb (length s) 63
    && every (λ x. is_account_char x || nat_eq x b'.' || nat_eq x b'_' || nat_eq x b'-') s

-- if err != nil { return errors.New(…) }
abbrev pub relabel {ℓ κ μ} :
    {A : Type ℓ} {E : Type κ} {F : Type μ} → Result E A → F → Result F (Unit {0})
relabel (ok a) f = ok tt
relabel (err e) f = err f

abbrev pub for_each {ℓ κ} :
    {A : Type ℓ} {E : Type κ} → (A → Result E (Unit {0})) → List A → Result E (Unit {0})
for_each body [] = ok tt
for_each body (a ∷ as') = body a >> for_each body as'

check_hardware : Env → Text × Option Snapshot → Result VaultError (Unit {0})
unfolding valid_id valid
check_hardware env (id, h) =
    fail_if (not (valid_id id) || not (valid env.now_plus_day h)) invalid_hardware

check_activity : Env → Text × Activity → Result VaultError (Unit {0})
unfolding valid_id valid len normalize_platform
check_activity env (id, a) = do
  fail_if (not (valid env.now_plus_day a.hardware)) invalid_server_hardware
  fail_if
      (not (valid_id id)
        || ltb_ℤ a.last_connected (pos 0)
        || ltb_ℤ a.last_seen (pos 0)
        || ltb_ℤ a.checked_at (pos 0)
        || ltb_ℤ a.ssh_checked_at (pos 0)
        || ltb 64 (len a.ssh_error)
        || ltb 16 (len a.status)
        || ltb_ℤ a.sshm_checked_at (pos 0)
        || ltb 16 (len a.sshm_status)
        || ltb 100 (len a.sshm_version))
      invalid_activity
  relabel (normalize_platform env.lower a.platform) invalid_activity_platform

invalid_shape : Text → Entry → Bool
unfolding valid_id contains_any
invalid_shape id e =
    not (valid_id id)
    || not (id == e.id)
    || is_nil (elements e.aliases)
    || ltb 200 (length (elements e.aliases))
    || ltb 200 (length (elements e.credential_ids))
    || ltb 200 (length (entries_of e.sources))
    || contains_any (e.server.host ++ e.server.user) control
    || is_nil e.server.host
    || ltb_ℤ e.server.port (pos 1)
    || ltb_ℤ (pos 65535) e.server.port

check_alias : Text → Result VaultError (Unit {0})
check_alias alias =
    fail_if
      (is_nil (trim_space alias)
        || ltb 256 (len alias)
        || contains_any alias (0 ∷ 13 ∷ 10 ∷ 27 ∷ []))
      invalid_alias

check_entry : Map Credential → Text × Entry → Result VaultError (Unit {0})
unfolding invalid_shape check_alias
check_entry credentials (id, e) = do
  fail_if (invalid_shape id e) invalid_entry
  fail_if (not (is_nil e.server.key_path)) key_path_in_entry
  fail_if
      (is_nil (trim_space e.server.user)
        || (not (e.server.auth == codes "key")
            && not (e.server.auth == codes "agent")
            && not (e.server.auth == codes "password")))
      invalid_login
  relabel
      (validate_server_metadata_bounds e.server.label e.server.description e.server.tags
        e.server.group e.server.notes)
      invalid_metadata
  for_each check_alias (elements e.aliases)
  for_each (λ c. fail_if (not (is_some (get c credentials))) missing_credential)
      (elements e.credential_ids)

check_credential : Text × Credential → Result VaultError (Unit {0})
unfolding valid_id len
check_credential (id, c) =
    fail_if
      (not (valid_id id)
        || (not (c.kind == codes "key") && not (c.kind == codes "password"))
        || ltb 1_048_576 (length (elements c.key))
        || ltb 65536 (len c.password)
        || ltb 65536 (length (elements c.passphrase)))
      invalid_credential

-- Validate
unfoldable pub validate : Env → Data → Result VaultError (Unit {0})
unfolding check_hardware check_activity check_entry check_credential
validate env d = do
  fail_if
      (not (eq_ℤ d.version (pos 1))
        || ltb 2000 (length d.entries)
        || ltb 4000 (length d.credentials))
      invalid_format
  fail_if (ltb 2000 (length d.activity)) too_many_activities
  fail_if (ltb 256 (length d.hardware)) too_many_devices
  for_each (check_hardware env) d.hardware
  for_each (check_activity env) d.activity
  for_each (check_entry d.credentials) d.entries
  for_each check_credential d.credentials
