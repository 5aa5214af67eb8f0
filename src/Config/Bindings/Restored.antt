-- ===== src/Config/Bindings/Restored.antt =====
-- The bindings of internal/config/cloud_bindings.go survive a program that does not know them.
use sshm.Prelude.{
  true, false, [], ◌∷◌, Option, none, some, ◌≡◌, refl, arith, ap, sym, ◌∙◌, if◌then◌else◌, is_nil,
  Bool-cases, inl, inr, ◌⊎◌, ◌≤◌, length, ℕ, ltb,
}
use sshm.Text.{Text, ◌==◌, text_eq_iff}
use sshm.Map.{Map, get}
use sshm.Map.Laws.{IsOrdered, Above, get-put, put-IsOrdered, ext, text_eq_refl, get-Above_eq}
use sshm.Config.{Server, Config}
use sshm.Config.Bindings.{
  CloudBinding, Sidecars, binding_fingerprint, cloud_bindings, is_kept, bound, bind_found, bind_all,
  with_entries, apply_cloud_bindings,
}

-- What a program leaves of a server that writes only the fields it knows.
abbrev pub unbound : Option Server → Option Server
unbound none = none
unbound (some s) = some (record s { cloud_entry = []; cloud_vault = [] })

unfoldable pub strip : Map (Option Server) → Map (Option Server)
strip [] = []
strip ((alias, s) ∷ servers) = (alias, unbound s) ∷ strip servers

-- A server names an entry only with the vault that holds it.
abbrev pub IsPaired : Map (Option Server) → Type 0
IsPaired servers =
    (alias : Text) (s : Server)
    → get alias servers ≡ some (some s)
    → s.cloud_vault ≡ []
    → s.cloud_entry ≡ []

-- The binding that is written for a server.
abbrev binding_of : Sidecars → Option (Option Server) → Option CloudBinding
binding_of f none = none
binding_of f (some none) = none
binding_of f (some (some s)) =
    if is_nil s.cloud_vault
    then none
    else some (record {
      fingerprint = binding_fingerprint f s;
      entry = s.cloud_entry;
      vault = s.cloud_vault;
    })

-- What one entry makes of a server.
abbrev bind_one : Sidecars → Option CloudBinding → Option (Option Server) → Option (Option Server)
bind_one f none o = o
bind_one f (some b) none = none
bind_one f (some b) (some none) = some none
bind_one f (some b) (some (some s)) =
    if is_kept f b s then some (some s) else some (some (bound b s))

get-cloud_bindings :
    (f : Sidecars) (servers : Map (Option Server)) (k : Text)
    → IsOrdered servers
    → get k (cloud_bindings f servers) ≡ binding_of f (get k servers)
unfolding cloud_bindings get
get-cloud_bindings f [] k o = refl
get-cloud_bindings f ((alias, none) ∷ servers) k o = elim (Bool-cases (alias == k)) [
  | inl e ↦
      rw e (
        get-cloud_bindings f servers k o.1 ∙ ap (binding_of f) (get-Above_eq alias k e servers o.0))
  | inr e ↦ rw e (get-cloud_bindings f servers k o.1)
]
get-cloud_bindings f ((alias, some s) ∷ servers) k o = elim (Bool-cases (alias == k)) [
  | inl e ↦ elim (Bool-cases (is_nil s.cloud_vault)) [
    | inl v ↦
        rw (e, v)
          (get-cloud_bindings f servers k o.1
            ∙ ap (binding_of f) (get-Above_eq alias k e servers o.0))
    | inr v ↦ rw (e, v, get-put, e) refl
  ]
  | inr e ↦ elim (Bool-cases (is_nil s.cloud_vault)) [
    | inl v ↦ rw (e, v) (get-cloud_bindings f servers k o.1)
    | inr v ↦ rw (e, v, get-put, e) (get-cloud_bindings f servers k o.1)
  ]
]

cloud_bindings-IsOrdered :
    (f : Sidecars) (servers : Map (Option Server)) → IsOrdered (cloud_bindings f servers)
unfolding cloud_bindings
cloud_bindings-IsOrdered f [] = tt
cloud_bindings-IsOrdered f ((alias, none) ∷ servers) = cloud_bindings-IsOrdered f servers
cloud_bindings-IsOrdered f ((alias, some s) ∷ servers) = elim (Bool-cases (is_nil s.cloud_vault)) [
  | inl v ↦ rw v (cloud_bindings-IsOrdered f servers)
  | inr v ↦
      rw v (put-IsOrdered alias _ (cloud_bindings f servers) (cloud_bindings-IsOrdered f servers))
]

get-bind_found :
    (f : Sidecars) (alias : Text) (b : CloudBinding) (servers : Map (Option Server)) (k : Text)
    (o : Option (Option Server))
    → get alias servers ≡ o
    → get k (bind_found f alias b servers o)
      ≡ (if alias == k then bind_one f (some b) o else get k servers)
unfolding bind_found
get-bind_found f alias b servers k none e = ground (arith, text_eq_iff alias k, e)
get-bind_found f alias b servers k (some none) e = ground (arith, text_eq_iff alias k, e)
get-bind_found f alias b servers k (some (some s)) e =
    ground (arith, text_eq_iff alias k, e, get-put k alias (some (bound b s)) servers)

get-bind_all :
    (f : Sidecars) (entries : Map CloudBinding) (servers : Map (Option Server)) (k : Text)
    → IsOrdered entries
    → get k (bind_all f entries servers) ≡ bind_one f (get k entries) (get k servers)
unfolding bind_all get
get-bind_all f [] servers k o = refl
get-bind_all f ((alias, b) ∷ entries) servers k o =
    get-bind_all f entries (bind_found f alias b servers (get alias servers)) k o.1
    ∙ ap (bind_one f (get k entries)) (get-bind_found f alias b servers k (get alias servers) refl)
    ∙ step (Bool-cases (alias == k))
  where
    step :
        (((alias == k) ≡ true) ⊎ ((alias == k) ≡ false))
        → bind_one f
            (get k entries)
            (if alias == k then bind_one f (some b) (get alias servers) else get k servers)
          ≡ bind_one f (if alias == k then some b else get k entries) (get k servers)
    step (inl e) = rw (e, get-Above_eq alias k e entries o.0, (text_eq_iff alias k).0 e) refl
    step (inr e) = rw e refl

abbrev stripped : Option (Option Server) → Option (Option Server)
stripped none = none
stripped (some s) = some (unbound s)

get-strip :
    (servers : Map (Option Server)) (k : Text) → get k (strip servers) ≡ stripped (get k servers)
unfolding strip get
get-strip [] k = refl
get-strip ((alias, s) ∷ servers) k = elim (Bool-cases (alias == k)) [
  | inl e ↦ rw e refl
  | inr e ↦ rw e (get-strip servers k)
]

strip-IsOrdered : (servers : Map (Option Server)) → IsOrdered servers → IsOrdered (strip servers)
unfolding strip
strip-IsOrdered [] o = tt
strip-IsOrdered ((alias, s) ∷ servers) o = (above alias servers o.0, strip-IsOrdered servers o.1)
  where
    above : (a : Text) (m : Map (Option Server)) → Above a m → Above a (strip m)
    above a [] h = tt
    above a ((k, v) ∷ m) h = (h.0, above a m h.1)

restored_one :
    (f : Sidecars) (o : Option (Option Server))
    → ((s : Server) → o ≡ some (some s) → s.cloud_vault ≡ [] → s.cloud_entry ≡ [])
    → bind_one f (binding_of f o) (stripped o) ≡ o
unfolding is_kept
restored_one f none paired = refl
restored_one f (some none) paired = refl
restored_one f (some (some s)) paired = elim (Bool-cases (is_nil s.cloud_vault)) [
  | inl v ↦
      let vault = nil s.cloud_vault v in
      rw v (
        ap (λ e. some (some (record s { cloud_entry = e; cloud_vault = [] })))
          (sym (paired s refl vault))
        ∙ ap (λ e. some (some (record s { cloud_vault = e }))) (sym vault))
  | inr v ↦ rw (v, text_eq_refl, v) refl
]
  where
    nil : (s : Text) → is_nil s ≡ true → s ≡ []
    nil [] h = refl
    nil (c ∷ s) h = cc h

bind_all-IsOrdered :
    (f : Sidecars) (entries : Map CloudBinding) (servers : Map (Option Server))
    → IsOrdered servers
    → IsOrdered (bind_all f entries servers)
unfolding bind_all bind_found
bind_all-IsOrdered f [] servers o = o
bind_all-IsOrdered f ((alias, b) ∷ entries) servers o =
    bind_all-IsOrdered f entries (bind_found f alias b servers (get alias servers))
      (found (get alias servers))
  where
    found : (s : Option (Option Server)) → IsOrdered (bind_found f alias b servers s)
    found none = o
    found (some none) = o
    found (some (some s)) = elim (Bool-cases (is_kept f b s)) [
      | inl k ↦ rw k o
      | inr k ↦ rw k (put-IsOrdered alias _ servers o)
    ]

-- A document that lost the fields of its bindings to a program that does not know them gets them all
-- back from the file beside it, where that file was written for the same servers, stays within 4 MiB
-- and is read as it was written, and where no server names an entry without its vault.
pub apply_cloud_bindings-strip :
    (f : Sidecars) (cfg : Config)
    → IsOrdered cfg.servers
    → IsPaired cfg.servers
    → f.decode_bindings (f.encode_bindings (cloud_bindings f cfg.servers))
      ≡ some (cloud_bindings f cfg.servers)
    → length (f.encode_bindings (cloud_bindings f cfg.servers)) ≤ 4_194_304
    → apply_cloud_bindings f
        (some (f.encode_bindings (cloud_bindings f cfg.servers)))
        (record cfg { servers = strip cfg.servers })
      ≡ cfg
unfolding apply_cloud_bindings with_entries
apply_cloud_bindings-strip f cfg o paired read small =
    rw (fits (length (f.encode_bindings (cloud_bindings f cfg.servers))) small, read)
      (ap (λ servers. record cfg { servers = servers }) servers)
  where
    fits : (n : ℕ) → n ≤ 4_194_304 → ltb 4_194_304 n ≡ false
    fits n h = ground (arith, h)

    servers : bind_all f (cloud_bindings f cfg.servers) (strip cfg.servers) ≡ cfg.servers
    servers =
        ext _ cfg.servers
          (bind_all-IsOrdered f (cloud_bindings f cfg.servers) (strip cfg.servers)
            (strip-IsOrdered cfg.servers o))
          o
          (λ k.
            get-bind_all f (cloud_bindings f cfg.servers) (strip cfg.servers) k
              (cloud_bindings-IsOrdered f cfg.servers)
            ∙ rw (get-cloud_bindings f cfg.servers k o, get-strip)
                (restored_one f (get k cfg.servers) (paired k)))
