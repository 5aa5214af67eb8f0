-- ===== src/LocalStore/Staged/Laws.antt =====
-- What the operations of internal/localstore/store.go on opened data mean for later ones.
use sshm.Prelude.{
  Bool, true, false, ltb, length, ◌||◌, List, [], ◌∷◌, none, some, ◌≡◌, ◌≢◌, refl, arith,
  if◌then◌else◌, is_nil, Bool-cases, inl, inr, sym, ap, ◌∙◌,
}
use sshm.Text.{Text, ◌==◌, text_eq, text_eq_iff, has_prefix}
use sshm.Map.{Map, get}
use sshm.Map.Laws.{get-put, get-remove, text_eq_refl}
use sshm.Result.{Result, ok, err, bind-eq-ok, fail_if, ◌>>◌}
use sshm.Config.{Server}
use sshm.LocalStore.{Bytes, Credential, Data, StoreError, inactive, wrong_count, System}
use sshm.LocalStore.Credentials.{
  identity, key_file_id, validate_credential, validate_each, validate_credentials,
}
use sshm.LocalStore.Staged.{
  put_connection, prepare_credentials, put_data, disable_connection, disable_data,
  resolve_connection, resolve_data, candidates, remembered, names_key_file, without_prefix,
  delete_secrets, set_secret,
}

get-without_prefix :
    (prefix name : Text) (m : Map Bytes)
    → get name (without_prefix prefix m) ≡ (if has_prefix name prefix then none else get name m)
unfolding without_prefix get
get-without_prefix prefix name [] = ground arith
get-without_prefix prefix name ((k, b) ∷ m) =
    ground (arith, text_eq_iff k name, get-without_prefix prefix name m)

guarded-eq-ok : (b : Bool) (e : StoreError) (x y : Data) → (fail_if b e >> ok x) ≡ ok y → x ≡ y
guarded-eq-ok false e x y h = cc h
guarded-eq-ok true e x y h = cc h

-- After DeleteSecrets the secrets that remain are those whose names do not start with the prefix,
-- unchanged; after SetSecret the named secret is the value and the other secrets are unchanged.
delete_and_set_secrets_lem :
    (prefix name other : Text) (value : Bytes) (d d' : Data)
    → set_secret name value d ≡ ok d'
    → (get other (delete_secrets prefix d).secrets
        ≡ (if has_prefix other prefix then none else get other d.secrets))
      × (get other d'.secrets ≡ (if name == other then some value else get other d.secrets))
unfolding delete_secrets set_secret
delete_and_set_secrets_lem prefix name other value d d' done =
    let same = guarded-eq-ok _ _ _ _ done in
    (
      get-without_prefix prefix other d.secrets,
      ap (λ e. get other e.secrets) (sym same) ∙ get-put other name value d.secrets,
    )

put-eq-ok :
    (sys : System) (t : Server) (cs : List Credential) (d d' : Data)
    → put_data sys (some t) cs d ≡ ok d'
    → (id : Text) × (kept : List Credential) × (identity sys (some t) ≡ ok id)
      × (validate_credentials sys cs ≡ ok kept)
      × (put_connection id kept d ≡ d')
unfolding put_data prepare_credentials
put-eq-ok sys t cs d d' h =
    let prepared = bind-eq-ok (prepare_credentials sys (some t) cs) _ h in
    let id = bind-eq-ok (identity sys (some t)) _ prepared.1 in
    let kept = bind-eq-ok (validate_credentials sys cs) _ id.2 in
    (id.0, kept.0, id.1, kept.1, cc (kept.2, prepared.2))

disable-eq-ok :
    (sys : System) (t : Server) (d d' : Data)
    → disable_data sys (some t) d ≡ ok d'
    → (id : Text) × (identity sys (some t) ≡ ok id) × (disable_connection id d ≡ d')
unfolding disable_data
disable-eq-ok sys t d d' h =
    let id = bind-eq-ok (identity sys (some t)) _ h in (id.0, id.1, cc id.2)

same_remembered :
    (d e : Data) (r : Result StoreError Text)
    → d.key_files ≡ e.key_files
    → remembered d r ≡ remembered e r
unfolding remembered
same_remembered d e (err _) files = refl
same_remembered d e (ok id) files = rw files

same_resolution :
    (sys : System) (d e : Data) (id : Text) (target : Server)
    → get id d.connections ≡ get id e.connections
    → get id d.disabled ≡ get id e.disabled
    → d.key_files ≡ e.key_files
    → resolve_connection sys d id target ≡ resolve_connection sys e id target
unfolding resolve_connection candidates
same_resolution sys d e id target conns dis files =
    rw (conns, dis, same_remembered d e (key_file_id sys target.key_path) files)

validate_each-is_nil :
    (sys : System) (cs kept : List Credential)
    → is_nil cs ≡ false
    → validate_each sys cs ≡ ok kept
    → is_nil kept ≡ false
unfolding validate_each
validate_each-is_nil sys [] kept some_given h = cc some_given
validate_each-is_nil sys (c ∷ cs) kept some_given h =
    let first = bind-eq-ok (validate_credential sys c) _ h in
    let others = bind-eq-ok (validate_each sys cs) _ first.2 in cons others.2
  where
    cons :
        {c : Credential} {cs kept : List Credential}
        → ◌≡◌ {A = Result StoreError (List Credential)} (ok (c ∷ cs)) (ok kept)
        → is_nil kept ≡ false
    cons {kept = []} h = cc h
    cons {kept = c ∷ kept} h = refl

validate_credentials-is_nil :
    (sys : System) (cs kept : List Credential)
    → validate_credentials sys cs ≡ ok kept
    → is_nil kept ≡ false
unfolding validate_credentials
validate_credentials-is_nil sys [] kept h = cc h
validate_credentials-is_nil sys (c ∷ cs) kept h =
    let counted =
      bind-eq-ok (fail_if (is_nil (c ∷ cs) || ltb 32 (length (c ∷ cs))) wrong_count) _ h in
    validate_each-is_nil sys (c ∷ cs) kept refl counted.2

resolve-put_connection :
    (sys : System) (d : Data) (id : Text) (kept : List Credential) (t : Server)
    → is_nil kept ≡ false
    → names_key_file t ≡ false
    → resolve_connection sys (put_connection id kept d) id t ≡ ok kept
unfolding resolve_connection put_connection candidates
resolve-put_connection sys d id kept t some_kept no_file =
    simp (get-put, get-remove, text_eq_refl, some_kept, no_file)

-- A disabled target has no credentials, though they stay in the data; registering it again gives it
-- exactly the validated credentials, when no key file is to be compared with them.
pub resolve-disable_then_put :
    (sys : System) (t : Server) (cs : List Credential) (d d' d'' : Data)
    → disable_data sys (some t) d ≡ ok d'
    → put_data sys (some t) cs d' ≡ ok d''
    → names_key_file t ≡ false
    → (resolve_data sys d' t ≡ err inactive)
      × (d'.connections ≡ d.connections)
      × (resolve_data sys d'' t ≡ validate_credentials sys cs)
unfolding disable_connection resolve_data resolve_connection
resolve-disable_then_put sys t cs d d' d'' disabled stored no_file =
    let off = disable-eq-ok sys t d d' disabled in
    let on = put-eq-ok sys t cs d' d'' stored in
    (
      rw (off.1, ← off.2, get-put, text_eq_refl),
      ap (λ x. x.connections) (sym off.2),
      rw (on.2, on.3, ← on.4)
          (resolve-put_connection sys d' on.0 on.1 t (validate_credentials-is_nil sys cs on.1 on.3)
            no_file),
    )

other_connection :
    (sys : System) (u : Server) (kept : List Credential) (d : Data) (id j : Text)
    → text_eq id j ≡ false
    → (resolve_connection sys (put_connection id kept d) j u ≡ resolve_connection sys d j u)
      × (resolve_connection sys (disable_connection id d) j u ≡ resolve_connection sys d j u)
unfolding put_connection disable_connection
other_connection sys u kept d id j apart = (
  same_resolution sys _ d j u (rw (get-put j id kept d.connections, apart))
      (rw (get-remove j id d.disabled, apart)) refl,
  same_resolution sys _ d j u refl (rw (get-put j id true d.disabled, apart)) refl,
)

-- Registering or disabling one target changes nothing for a target of another identity.
pub resolve-other_identity :
    (sys : System) (t u : Server) (cs : List Credential) (j : Text) (d d' d'' : Data)
    → identity sys (some u) ≡ ok j
    → identity sys (some t) ≢ ok j
    → put_data sys (some t) cs d ≡ ok d'
    → disable_data sys (some t) d ≡ ok d''
    → (resolve_data sys d' u ≡ resolve_data sys d u)
      × (resolve_data sys d'' u ≡ resolve_data sys d u)
unfolding resolve_data
resolve-other_identity sys t u cs j d d' d'' mine apart stored disabled =
    let on = put-eq-ok sys t cs d d' stored in
    let off = disable-eq-ok sys t d d'' disabled in
    let kept = λ (id : Text) (known : identity sys (some t) ≡ ok id).
      other_connection sys u on.1 d id j (different id known) in
    rw (mine, ← on.4, ← off.2) ((kept on.0 on.2).0, (kept off.0 off.1).1)
  where
    different : (id : Text) → identity sys (some t) ≡ ok id → text_eq id j ≡ false
    different id known = elim (Bool-cases (text_eq id j)) [
      | inl e ↦ elim (apart (rw (← (text_eq_iff id j).0 e) known)) [ ]
      | inr e ↦ e
    ]
