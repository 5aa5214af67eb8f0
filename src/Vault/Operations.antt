-- ===== src/Vault/Operations.antt =====
-- internal/cloudsync/data.go: looking an entry up, removing it, resolving its conflict and setting
-- its password.
pub mod Find
pub mod Slots
use sshm.Prelude.{
  ℕ, Bool, true, false, not, List, [], ◌∷◌, ◌++◌, Option, none, some, if◌then◌else◌, elements, any,
}
use sshm.Text.{Text, ◌==◌, codes}
unfoldable use sshm.Text.{text_eq}
use sshm.Map.{Map, is_some}
unfoldable use sshm.Map.{get, put, remove}
use sshm.Map.Keys.{member}
use sshm.Result.{Result, ok, err, ◌>>=◌, ◌>>◌, fail_if}
use sshm.Vault.{Credential, credential, Entry, Conflict, Data, Env}
use sshm.Vault.Valid.{
  VaultError, entry_not_found, not_password_auth, conflict_unresolved, alias_ambiguous,
  conflict_not_found, choose_a_side,
}

-- The entries that have the alias.
unfoldable pub with_alias : Text → Map Entry → List Entry
with_alias alias [] = []
with_alias alias ((id, e) ∷ m) =
    let rest = with_alias alias m in if member alias (elements e.aliases) then e ∷ rest else rest

unless_conflict : Data → Text → Entry → Result VaultError Entry
unless_conflict d id e = if is_some (get id d.conflicts) then err conflict_unresolved else ok e

only_one : Data → List Entry → Result VaultError Entry
unfolding unless_conflict
only_one d [] = err entry_not_found
only_one d (e ∷ []) = unless_conflict d e.id e
only_one d (e ∷ f ∷ rest) = err alias_ambiguous

find_from : Data → Text → Option Entry → Result VaultError Entry
unfolding only_one with_alias
find_from d alias (some e) = unless_conflict d alias e
find_from d alias none = only_one d (with_alias alias d.entries)

-- Find
unfoldable pub find : Data → Text → Result VaultError Entry
unfolding find_from
find d alias = find_from d alias (get alias d.entries)

-- Remove
unfoldable pub remove_entry : Data → Text → Data
remove_entry d id = record d {
  entries = remove id d.entries;
  activity = remove id d.activity;
  conflicts = remove id d.conflicts;
  deleted = put id true d.deleted;
}

chosen_side : Conflict → Text → Result VaultError (Option Entry)
chosen_side c side =
    if side == codes "local"
    then ok c.local
    else if side == codes "remote"
    then ok c.remote
    else err choose_a_side

settle : Data → Text → Option Entry → Data
unfolding remove_entry
settle d id none = remove_entry d id
settle d id (some e) = record d {
  entries = put id e d.entries;
  deleted = remove id d.deleted;
  conflicts = remove id d.conflicts;
}

resolve_conflict : Data → Text → Text → Option Conflict → Result VaultError Data
unfolding chosen_side settle
resolve_conflict d id side none = err conflict_not_found
resolve_conflict d id side (some c) = do e ← chosen_side c side; ok (settle d id e)

-- Resolve
unfoldable pub resolve : Data → Text → Text → Result VaultError Data
unfolding resolve_conflict
resolve d id side = resolve_conflict d id side (get id d.conflicts)

abbrev pub password_credential : Text → Credential
password_credential password = record {
  kind = codes "password";
  key = none;
  passphrase = none;
  password = password;
  fingerprint = [];
}

with_password : Env → Data → Text → Text → Option Entry → Result VaultError Data
with_password env d id password none = err entry_not_found
with_password env d id password (some e) = do
  fail_if (not (e.server.auth == codes "password")) not_password_auth
  let c = password_credential password
  let cid = env.digest (credential c)
  ok (record d {
    credentials = put cid c d.credentials;
    entries = put id (record e { credential_ids = some (cid ∷ []) }) d.entries;
  })

-- SetPassword
unfoldable pub set_password : Env → Data → Text → Text → Result VaultError Data
unfolding with_password
set_password env d id password = with_password env d id password (get id d.entries)
