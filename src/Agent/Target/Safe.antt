-- ===== src/Agent/Target/Safe.antt =====
-- What targetOptions of internal/cloudagent/target.go lets through.
use sshm.Prelude.{
  Bool, true, false, not, ◌&&◌, ◌||◌, List, [], ◌∷◌, ◌++◌, Option, none, some, ◌≡◌, ◌⊎◌, inl, inr,
  refl, sym, ◌∙◌, ap, Bool-cases, not-eq-false, is_nil, any, elements,
}
use mathlib.Core.Path.{subst}
use sshm.Text.{Text, ◌==◌, codes, text_eq_iff}
use sshm.Map.{Map}
use sshm.Result.{ok, fail_if, fail_if-eq-ok, bind-eq-ok}
use sshm.Config.{Server, Config}
use sshm.Vault.{Env, Data, Entry, Credential}
use sshm.Vault.Entries.{entry_id}
use sshm.Agent.Target.{
  ReadKey, BuildOpts, source_device_required, invalid_credential, key_locked, password_unavailable,
  local_alias, alias_of, with_key_path, local_servers, has_route, Chosen, take_credentials,
  checked_options, target_for, target_options,
}

-- This device has a server of the entry's identity under the alias.
abbrev pub IsLocal : Env → Text → Map (Option Server) → Text → Server → Type 0
IsLocal env id servers alias s =
    (front : Map (Option Server)) × (back : Map (Option Server)) × (servers
      ≡ front ++ (alias, some s) ∷ back)
    × (entry_id env s ≡ id)

local_alias-IsLocal :
    (env : Env) (id : Text) (servers : Map (Option Server)) (alias : Text) (s : Server)
    → local_alias env id servers ≡ some (alias, s)
    → IsLocal env id servers alias s
unfolding local_alias
local_alias-IsLocal env id [] alias s h = cc h
local_alias-IsLocal env id ((k, none) ∷ servers) alias s h =
    let rest = local_alias-IsLocal env id servers alias s h in
    ((k, none) ∷ rest.0, rest.1, ap (λ m. (k, none) ∷ m) rest.2, rest.3)
local_alias-IsLocal env id ((k, some t) ∷ servers) alias s h =
    elim (Bool-cases (entry_id env t == id)) [
      | inl e ↦ here (rw e at h) ((text_eq_iff (entry_id env t) id).0 e)
      | inr e ↦
          let rest = local_alias-IsLocal env id servers alias s (rw e at h) in
          ((k, some t) ∷ rest.0, rest.1, ap (λ m. (k, some t) ∷ m) rest.2, rest.3)
    ]
  where
    here :
        ◌≡◌ {A = Option (Text × Server)} (some (k, t)) (some (alias, s))
        → entry_id env t ≡ id
        → IsLocal env id ((k, some t) ∷ servers) alias s
    here e same =
        let name : k ≡ alias = cc e in
        let server : t ≡ s = cc e in
        (
          [],
          servers,
          ap (λ n. (n, some t) ∷ servers) name ∙ ap (λ x. (alias, some x) ∷ servers) server,
          ap (entry_id env) (sym server) ∙ same,
        )

-- The options reach the entry's host over the entry's route, open no forward, and use a credential that
-- the entry names, the requested one if there is one.
abbrev pub IsAllowed : Env → Entry → Map (Option Server) → Text → Server → BuildOpts → Type 0
IsAllowed env entry servers credential target opts =
    (target ≡ record entry.server { key_path = target.key_path; forwards = none })
    × ((has_route entry.server ≡ false)
        ⊎ ((s : Server) × IsLocal env entry.id servers opts.alias s
            × (target.key_path ≡ s.key_path)))
    × ((credential ≡ []) ⊎ (any (λ id. credential == id) (elements entry.credential_ids) ≡ true))
    × (((target.auth == codes "key")
          && is_nil opts.signers
          && (is_nil target.key_path || not (is_nil credential)))
        ≡ false)
    × (((target.auth == codes "password") && is_nil opts.password) ≡ false)

nil_lem : (s : Text) → is_nil s ≡ true → s ≡ []
nil_lem [] h = refl
nil_lem (c ∷ s) h = cc h

take_credentials-matched :
    (read_key : ReadKey) (target : Server) (credentials : Map Credential) (credential : Text)
    (ids : List Text) (x y : Chosen)
    → is_nil credential ≡ false
    → take_credentials read_key target credentials credential ids x ≡ ok y
    → y.matched ≡ true
    → (x.matched ≡ true) ⊎ (any (λ id. credential == id) ids ≡ true)
unfolding take_credentials
take_credentials-matched read_key target credentials credential [] x y named h m =
    let same : x ≡ y = cc h in inl (ap (λ z. z.matched) same ∙ m)
take_credentials-matched read_key target credentials credential (id ∷ ids) x y named h m =
    elim (Bool-cases (credential == id)) [
      | inl e ↦ inr (rw e refl)
      | inr e ↦
          elim (take_credentials-matched read_key target credentials credential ids x y named
            (rw (e, named) at h) m) [ inl old ↦ inl old | inr there ↦ inr (rw e there) ]
    ]

checked_options-eq-ok :
    (credential : Text) (target : Server) (alias : Text) (x : Chosen) (t : Server) (o : BuildOpts)
    → checked_options credential target alias x ≡ ok (t, o)
    → (x.matched ≡ true)
      × (((target.auth == codes "key")
            && is_nil x.signers
            && (is_nil target.key_path || not (is_nil credential)))
          ≡ false)
      × (((target.auth == codes "password") && is_nil x.password) ≡ false)
      × (target ≡ t)
      × (record { alias = alias; password = x.password; signers = x.signers } ≡ o)
unfolding checked_options
checked_options-eq-ok credential target alias x t o h =
    let matched = bind-eq-ok (fail_if (not x.matched) invalid_credential) _ h in
    let key =
      bind-eq-ok
        (fail_if
          ((target.auth == codes "key")
            && is_nil x.signers
            && (is_nil target.key_path || not (is_nil credential)))
          key_locked)
        _ matched.2 in
    let password =
      bind-eq-ok
        (fail_if ((target.auth == codes "password") && is_nil x.password) password_unavailable) _
        key.2 in
    (
      not-eq-false x.matched (fail_if-eq-ok _ _ matched.0 matched.1),
      fail_if-eq-ok _ _ key.0 key.1,
      fail_if-eq-ok _ _ password.0 password.1,
      cc password.2,
      cc password.2,
    )

-- A server with a route is reached through the server of this device.
routed_lem :
    (env : Env) (entry : Entry) (servers : Map (Option Server)) (found : Option (Text × Server))
    → local_alias env entry.id servers ≡ found
    → (has_route (with_key_path found entry.server) && is_nil (alias_of found)) ≡ false
    → (has_route entry.server ≡ false)
      ⊎ ((s : Server) × IsLocal env entry.id servers (alias_of found) s
          × ((with_key_path found entry.server).key_path ≡ s.key_path))
unfolding has_route
routed_lem env entry servers none look h = inl (alone (has_route entry.server) h)
  where
    alone : (b : Bool) → (b && true) ≡ false → b ≡ false
    alone false h = refl
    alone true h = cc h
routed_lem env entry servers (some (alias, s)) look h =
    inr (s, local_alias-IsLocal env entry.id servers alias s look, refl)

same_route :
    (entry : Entry) (found : Option (Text × Server))
    → record (with_key_path found entry.server) { forwards = none } ≡ record entry.server {
      key_path = (with_key_path found entry.server).key_path;
      forwards = none;
    }
same_route entry none = refl
same_route entry (some (alias, s)) = refl

requested_lem :
    (read_key : ReadKey) (target : Server) (credentials : Map Credential) (credential : Text)
    (ids : List Text) (y : Chosen)
    → take_credentials read_key target credentials credential ids
        (record { matched = is_nil credential; password = []; signers = [] })
      ≡ ok y
    → y.matched ≡ true
    → (credential ≡ []) ⊎ (any (λ id. credential == id) ids ≡ true)
requested_lem read_key target credentials credential ids y h m =
    elim (Bool-cases (is_nil credential)) [
      | inl e ↦ inl (nil_lem credential e)
      | inr e ↦
          elim (take_credentials-matched read_key target credentials credential ids _ y e h m) [
            | inl old ↦ inl (nil_lem credential old)
            | inr there ↦ inr there
          ]
    ]

target_for-IsAllowed :
    (env : Env) (read_key : ReadKey) (vault : Data) (entry : Entry) (servers : Map (Option Server))
    (credential : Text) (found : Option (Text × Server)) (target : Server) (opts : BuildOpts)
    → local_alias env entry.id servers ≡ found
    → target_for read_key vault entry credential (with_key_path found entry.server) found
      ≡ ok (target, opts)
    → IsAllowed env entry servers credential target opts
unfolding target_for
target_for-IsAllowed env read_key vault entry servers credential found target opts look h =
    let route =
      bind-eq-ok
        (fail_if (has_route (with_key_path found entry.server) && is_nil (alias_of found))
          source_device_required)
        _ h in
    let x =
      bind-eq-ok
        (take_credentials read_key (record (with_key_path found entry.server) { forwards = none })
          vault.credentials credential (elements entry.credential_ids)
          (record { matched = is_nil credential; password = []; signers = [] }))
        _ route.2 in
    let done =
      checked_options-eq-ok credential
        (record (with_key_path found entry.server) { forwards = none }) (alias_of found) x.0 target
        opts x.2 in
    subst (λ t. IsAllowed env entry servers credential t opts) done.3
      (subst
        (λ o.
          IsAllowed env entry servers credential
            (record (with_key_path found entry.server) { forwards = none }) o)
        done.4
        (
          same_route entry found,
          routed_lem env entry servers found look (fail_if-eq-ok _ _ route.0 route.1),
          requested_lem read_key (record (with_key_path found entry.server) { forwards = none })
              vault.credentials credential (elements entry.credential_ids) x.0 x.1 done.0,
          done.1,
          done.2,
        ))

-- Whatever a request names, targetOptions lets it reach only the host of the entry under the route of the
-- entry, with no forwarded port. An entry with a proxy, a jump or forwards needs a server of the same
-- identity on this device, whose key path is used. A credential that is asked for is one of the entry's,
-- and there is a key or a password where the server wants one.
pub target_options-IsAllowed :
    (env : Env) (read_key : ReadKey) (vault : Data) (entry : Entry) (cfg : Option Config)
    (credential : Text) (target : Server) (opts : BuildOpts)
    → target_options env read_key vault entry cfg credential ≡ ok (target, opts)
    → IsAllowed env entry (local_servers cfg) credential target opts
unfolding target_options
target_options-IsAllowed env read_key vault entry cfg credential target opts h =
    target_for-IsAllowed env read_key vault entry (local_servers cfg) credential
      (local_alias env entry.id (local_servers cfg)) target opts refl h
