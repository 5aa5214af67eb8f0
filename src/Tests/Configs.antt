-- ===== src/Tests/Configs.antt =====
-- A configuration whose bindings are restored, that is updated, and that is searched.
use sshm.Prelude.{
  ℕ, pos, Bool, true, false, List, [], ◌∷◌, Option, none, some, ◌≡◌, refl, arith, ap, sym,
  Bool-cases, inl, inr,
}
use sshm.Text.{
  Text, codes, ◌==◌, text_eq, trim_space, to_lower, contains, contains_any, has_prefix, join,
  fields, is_space, contains_rune,
}
use sshm.Text.Order.{text_ltb}
use sshm.Map.{get, put}
use sshm.Map.Laws.{IsOrdered}
use sshm.Result.{Result, ok, err}
use sshm.Config.{Server, Config}
use sshm.Config.Bindings.{
  CloudBinding, Sidecars, Bytes, cloud_bindings, apply_cloud_bindings, bind_all, is_kept,
}
use sshm.Config.Bindings.Restored.{strip, IsPaired, apply_cloud_bindings-strip}
use sshm.Config.Document.{
  Format, FileRead, content, Writing, Change, update_config, new_config, validate_projects,
  decode_config, checked_version, save_if_unchanged, unchanged, at_current, changed_outside,
}
use sshm.Config.Document.Update.{IsReadable, Updated, update_config-Updated}
use sshm.Config.Search.{
  ServerMatch, search_servers, search_terms, search_fields, normalize_search_text, match_servers,
  rank_all, rank, ranks_before, match_terms, add_term, field_matches, matched_names, fields_func,
  is_separator,
}
use sshm.Time.{zero_time}

abbrev plain_server : Server
plain_server = record {
  cloud_entry = [];
  cloud_vault = [];
  hardware = none;
  label = codes "Build Host";
  description = [];
  platform = codes "linux";
  host = codes "10.0.0.7";
  port = pos 22;
  user = codes "ann";
  auth = codes "key";
  key_path = [];
  tags = some (codes "dynamic-debug" ∷ []);
  group = [];
  notes = [];
  init_state = [];
  created_at = zero_time;
  identity_changed_at = zero_time;
  last_used = zero_time;
  last_checked = zero_time;
  last_seen = zero_time;
  sshm_status = [];
  sshm_version = [];
  sshm_checked_at = zero_time;
  last_ssh_checked = zero_time;
  last_ssh_error = [];
  last_status = [];
  cleanup_protected = false;
  proxy_jump = [];
  proxy_command = [];
  proxy = [];
  forwards = none;
}

abbrev bound_server : Server
bound_server = record plain_server { cloud_entry = codes "e1"; cloud_vault = codes "v1" }

abbrev configuration : Config
configuration = record new_config {
  servers = (codes "box", some bound_server) ∷ (codes "web", some plain_server) ∷ [];
}

computing : Unit {0}
unfolding text_eq trim_space to_lower contains contains_any has_prefix join fields is_space
    contains_rune text_ltb get put cloud_bindings apply_cloud_bindings bind_all is_kept strip
    update_config validate_projects decode_config checked_version save_if_unchanged unchanged
    search_servers search_terms search_fields normalize_search_text match_servers rank_all rank
    ranks_before match_terms add_term field_matches matched_names fields_func is_separator
computing = tt

abbrev binding : CloudBinding
binding = record { fingerprint = codes "10.0.0.7"; entry = codes "e1"; vault = codes "v1" }

-- The one file that this test writes is read back; the fingerprint is the host.
abbrev sidecars : Sidecars
sidecars = record {
  fingerprint = λ route. route.host;
  encode_bindings = λ m. codes "{}";
  decode_bindings = λ b. some ((codes "box", binding) ∷ []);
  decode_preferences = λ b. none;
}

ordered : IsOrdered configuration.servers
unfolding computing
ordered = ((refl, tt), (tt, tt))

read_back :
    sidecars.decode_bindings
      (sidecars.encode_bindings (cloud_bindings sidecars configuration.servers))
    ≡ some (cloud_bindings sidecars configuration.servers)
unfolding computing
read_back = refl

paired : IsPaired configuration.servers
unfolding computing
paired alias s h v = elim (Bool-cases (codes "box" == alias)) [
  | inl e ↦ cc (ap vault_of (rw e at h), v)
  | inr e ↦ elim (Bool-cases (codes "web" == alias)) [
    | inl e' ↦ sym (ap entry_of (rw (e, e') at h))
    | inr e' ↦ cc (rw (e, e') at h)
  ]
]
  where
    vault_of : Option (Option Server) → Text
    vault_of (some (some x)) = x.cloud_vault
    vault_of _ = []

    entry_of : Option (Option Server) → Text
    entry_of (some (some x)) = x.cloud_entry
    entry_of _ = []

apply_cloud_bindings-strip_example :
    apply_cloud_bindings sidecars
      (some (codes "{}"))
      (record configuration { servers = strip configuration.servers })
    ≡ configuration
apply_cloud_bindings-strip_example =
    apply_cloud_bindings-strip sidecars configuration ordered paired read_back (omega arith)

-- A callback that adds a server, of which TOML keeps the document that it makes.
abbrev grown : Config
grown = record configuration { default = codes "box" }

abbrev grow : Change
grow cfg b = ok grown

abbrev toml : Format
toml = record { unmarshal = λ b. some grown; encode = λ cfg. 1 ∷ 2 ∷ [] }

abbrev writing : FileRead → Writing
writing now = record { staged = true; reread = now; renamed = true }

grow-IsReadable : (c : Config) (b : Bytes) (new : Config) → grow c b ≡ ok new → IsReadable new
grow-IsReadable c b new h = rw (sym (new_of h)) (omega arith)
  where
    new_of : ◌≡◌ {A = Result Text Config} (ok grown) (ok new) → grown ≡ new
    new_of h = cc h

toml_reads_back :
    (c : Config) (b : Bytes) (new : Config)
    → grow c b ≡ ok new
    → toml.unmarshal (toml.encode (at_current new)) ≡ some (at_current new)
toml_reads_back c b new h = rw (sym (new_of h)) refl
  where
    new_of : ◌≡◌ {A = Result Text Config} (ok grown) (ok new) → grown ≡ new
    new_of h = cc h

-- No project names a credential here.
abbrev no_secret : Text → Bool
no_secret s = false

updated_test :
    update_config no_secret toml sidecars none grow (writing (content (5 ∷ []))) (content (5 ∷ []))
    ≡ (content (1 ∷ 2 ∷ []), ok tt)
unfolding computing
updated_test = refl

-- What another program wrote meanwhile stays.
changed_outside_test :
    update_config no_secret toml sidecars none grow (writing (content (6 ∷ []))) (content (5 ∷ []))
    ≡ (content (6 ∷ []), err changed_outside)
unfolding computing
changed_outside_test = refl

update_config-Updated_example :
    Updated no_secret toml sidecars none grow (content (5 ∷ [])) (content (5 ∷ [])) (
      update_config no_secret toml sidecars none grow
        (writing (content (5 ∷ [])))
        (content (5 ∷ [])))
update_config-Updated_example =
    update_config-Updated no_secret toml sidecars none grow (writing (content (5 ∷ [])))
      (content (5 ∷ [])) grow-IsReadable toml_reads_back

abbrev same_letter : ℕ → ℕ
same_letter c = c

abbrev query : Text
query = codes " Dynamic_Debug linux"

query_terms : search_terms same_letter query ≡ codes "dynamic" ∷ codes "debug" ∷ codes "linux" ∷ []
unfolding computing
query_terms = refl

aliases : List ServerMatch → List (Text × ℕ)
aliases [] = []
aliases (m ∷ ms) = (m.alias, m.score) ∷ aliases ms

-- The name of the server itself weighs 200.
search_test :
    aliases (search_servers same_letter configuration.servers (codes "WEB"))
    ≡ (codes "web", 300) ∷ []
unfolding computing aliases
search_test = refl
