-- ===== src/Agent/Target.antt =====
-- targetOptions of internal/cloudagent/target.go: what a request for a session may connect to, and with
-- which credentials. Parsing a private key is the argument `read_key`, under a passphrase or without.
pub mod Safe
use sshm.Prelude.{
  ℕ, Bool, true, false, not, ◌&&◌, ◌||◌, List, [], ◌∷◌, ◌++◌, Option, none, some, ◌≡◌, ◌⊎◌, inl,
  inr, refl, sym, ◌∙◌, ap, Bool-cases, and-eq-true, not-eq-false, if◌then◌else◌, is_nil, any,
  elements,
}
use sshm.Text.{Text, ◌==◌, codes, text_eq_iff}
unfoldable use sshm.Text.{text_eq}
use sshm.Map.{Map}
unfoldable use sshm.Map.{get}
use sshm.Result.{Result, ok, err, ◌>>=◌, fail_if, fail_if-eq-ok, bind-eq-ok}
use sshm.Config.{Server, Config}
use sshm.Vault.{Env, Data, Entry, Credential}
unfoldable use sshm.Vault.Entries.{entry_id}

-- A signer is named by its public key.
abbrev pub ReadKey : Type 0
ReadKey = List ℕ → Option (List ℕ) → Option Text

-- The options that this function sets.
pub record BuildOpts : Type 0 where
  pub alias : Text
  pub password : Text
  pub signers : List Text

pub data TargetError : Type 0 where
  source_device_required choose_credential invalid_credential key_locked password_unavailable :
      TargetError

-- The loop over the servers of this device, which ends at the first of the same identity.
unfoldable pub local_alias : Env → Text → Map (Option Server) → Option (Text × Server)
unfolding entry_id text_eq
local_alias env id [] = none
local_alias env id ((alias, none) ∷ servers) = local_alias env id servers
local_alias env id ((alias, some s) ∷ servers) =
    let rest = local_alias env id servers in if entry_id env s == id then some (alias, s) else rest

abbrev pub alias_of : Option (Text × Server) → Text
alias_of none = []
alias_of (some (alias, s)) = alias

abbrev pub with_key_path : Option (Text × Server) → Server → Server
with_key_path none target = target
with_key_path (some (alias, s)) target = record target { key_path = s.key_path }

abbrev pub local_servers : Option Config → Map (Option Server)
local_servers none = []
local_servers (some cfg) = cfg.servers

-- target.ProxyCommand != "" || target.ProxyJump != "" || target.Proxy != "" || len(target.Forwards) > 0
unfoldable pub has_route : Server → Bool
has_route s = not (
    is_nil s.proxy_command && is_nil s.proxy_jump && is_nil s.proxy && is_nil (elements s.forwards))

-- data.Credentials[id]
abbrev pub credential_at : Option Credential → Credential
credential_at (some c) = c
credential_at none = record {
  kind = [];
  key = none;
  passphrase = none;
  password = [];
  fingerprint = [];
}

-- matched, opts.Password and signers.
pub record Chosen : Type 0 where
  pub matched : Bool
  pub password : Text
  pub signers : List Text

unfoldable pub take_password : Server → Credential → Chosen → Result TargetError Chosen
unfolding text_eq
take_password target c x =
    if (target.auth == codes "password") && (c.kind == codes "password")
    then (if not (is_nil x.password) && not (x.password == c.password)
        then err choose_credential
        else ok (record x { password = c.password }))
    else ok x

signer_of : ReadKey → Credential → Option Text → List Text
signer_of read_key c (some s) = s ∷ []
signer_of read_key c none =
    if is_nil (elements c.passphrase)
    then []
    else elim (read_key (elements c.key) (some (elements c.passphrase))) [
      | none ↦ []
      | some s ↦ s ∷ []
    ]

unfoldable pub take_key : ReadKey → Server → Credential → Chosen → Chosen
unfolding text_eq signer_of
take_key read_key target c x =
    if (target.auth == codes "key") && (c.kind == codes "key")
    then record x { signers = x.signers ++ signer_of read_key c (read_key (elements c.key) none) }
    else x

take_one : ReadKey → Server → Credential → Chosen → Result TargetError Chosen
unfolding take_password take_key
take_one read_key target c x =
    take_password target c (record x { matched = true }) >>= λ y. ok (take_key read_key target c y)

-- The loop over entry.CredentialIDs.
unfoldable pub take_credentials :
    ReadKey → Server → Map Credential → Text → List Text → Chosen → Result TargetError Chosen
unfolding take_one text_eq get
take_credentials read_key target credentials credential [] x = ok x
take_credentials read_key target credentials credential (id ∷ ids) x =
    if not (is_nil credential) && not (credential == id)
    then take_credentials read_key target credentials credential ids x
    else (take_one read_key target (credential_at (get id credentials)) x
        >>= take_credentials read_key target credentials credential ids)

-- What follows the loop.
unfoldable pub checked_options :
    Text → Server → Text → Chosen → Result TargetError (Server × BuildOpts)
unfolding text_eq
checked_options credential target alias x = do
  _ ← fail_if (not x.matched) invalid_credential
  _ ←
      fail_if
        ((target.auth == codes "key")
          && is_nil x.signers
          && (is_nil target.key_path || not (is_nil credential)))
        key_locked
  _ ← fail_if ((target.auth == codes "password") && is_nil x.password) password_unavailable
  ok (target, record { alias = alias; password = x.password; signers = x.signers })

target_for :
    ReadKey
    → Data
    → Entry
    → Text
    → Server
    → Option (Text × Server)
    → Result TargetError (Server × BuildOpts)
unfolding has_route take_credentials checked_options
target_for read_key vault entry credential target found = do
  _ ← fail_if (has_route target && is_nil (alias_of found)) source_device_required
  x ←
      take_credentials read_key (record target { forwards = none }) vault.credentials credential
        (elements entry.credential_ids)
        (record { matched = is_nil credential; password = []; signers = [] })
  checked_options credential (record target { forwards = none }) (alias_of found) x

-- targetOptions
unfoldable pub target_options :
    Env → ReadKey → Data → Entry → Option Config → Text → Result TargetError (Server × BuildOpts)
unfolding local_alias target_for
target_options env read_key vault entry cfg credential =
    let found = local_alias env entry.id (local_servers cfg) in
    target_for read_key vault entry credential (with_key_path found entry.server) found
