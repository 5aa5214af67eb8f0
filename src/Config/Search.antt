-- ===== src/Config/Search.antt =====
-- internal/config/search.go: the search that assistants use. The letters above ASCII are lowered by the
-- argument `lower`, as in strings.ToLower.
pub mod Found
use sshm.Prelude.{
  ℕ, ◌+◌, Bool, true, false, not, ◌&&◌, ◌||◌, List, [], ◌∷◌, ◌++◌, Option, none, some,
  if◌then◌else◌, is_nil, ltb, nat_eq, any, elements,
}
use sshm.Text.{Text, ◌==◌, codes}
unfoldable use sshm.Text.{
  text_eq, is_space, trim_space, to_lower, contains_rune, contains, join, fields,
}
unfoldable use sshm.Text.Order.{text_ltb}
use sshm.Map.{Map}
use sshm.Config.{Server}

pub record ServerMatch : Type 0 where
  pub alias : Text
  pub server : Server
  pub score : ℕ
  pub matched_on : List Text

-- A field with its value normalized.
pub record SearchField : Type 0 where
  pub name : Text
  pub value : Text
  pub weight : ℕ

-- strings.FieldsFunc, with the word that is being read.
unfoldable pub fields_func : (ℕ → Bool) → Text → Text → List Text
fields_func p word [] = if is_nil word then [] else word ∷ []
fields_func p word (c ∷ s) =
    let skip = fields_func p [] s in
    let more = fields_func p (word ++ (c ∷ [])) s in
    if p c then (if is_nil word then skip else word ∷ skip) else more

unfoldable pub is_separator : ℕ → Bool
unfolding is_space contains_rune
is_separator c = is_space c || contains_rune (codes ",;|/\\:_()[]{}") c

module _ (lower : ℕ → ℕ) where
  -- normalizeSearchText
  unfoldable pub normalize_search_text : Text → Text
  unfolding to_lower trim_space fields_func is_separator join
  normalize_search_text value =
      join (fields_func is_separator [] (to_lower lower (trim_space value))) (codes " ")

  -- searchTerms
  unfoldable pub search_terms : Text → List Text
  unfolding fields normalize_search_text
  search_terms query = fields (normalize_search_text query)

  unfoldable pub search_fields : Text → Server → List SearchField
  unfolding normalize_search_text join
  search_fields alias s =
      field "alias" alias 100
      ∷ field "label" s.label 80
      ∷ field "description" s.description 60
      ∷ field "platform" s.platform 55
      ∷ field "tags" (join (elements s.tags) (codes " ")) 50
      ∷ field "group" s.group 40
      ∷ field "user" s.user 20
      ∷ field "host" s.host 10
      ∷ []
    where
      field : Prim.Native.String.String → Text → ℕ → SearchField
      field name value weight = record {
        name = codes name;
        value = normalize_search_text value;
        weight = weight;
      }

-- !(normalized[index] == "" || !strings.Contains(normalized[index], term))
unfoldable pub field_matches : Text → SearchField → Bool
unfolding contains
field_matches term f = not (is_nil f.value || not (contains f.value term))

-- The score and the names of the fields that matched so far.
abbrev pub Tally : Type 0
Tally = ℕ × List Text

-- The loop over the fields for one term.
unfoldable pub add_term : Text → List SearchField → Tally → Tally
unfolding field_matches
add_term term [] t = t
add_term term (f ∷ fs) t =
    add_term term fs (if field_matches term f then (t.0 + f.weight, f.name ∷ t.1) else t)

-- The loop over the terms; a term that no field has ends it.
unfoldable pub match_terms : List SearchField → List Text → Tally → Option Tally
unfolding add_term field_matches
match_terms fs [] t = some t
match_terms fs (term ∷ terms) t =
    let rest = match_terms fs terms (add_term term fs t) in
    if any (field_matches term) fs then rest else none

unfoldable pub matched_names : List Text → List SearchField → List Text
unfolding text_eq
matched_names matched [] = []
matched_names matched (f ∷ fs) =
    let rest = matched_names matched fs in
    if any (λ name. name == f.name) matched then f.name ∷ rest else rest

abbrev pub full_score : Text → Text → ℕ → ℕ
full_score alias query score = if alias == query then score + 200 else score

module _ (lower : ℕ → ℕ) where
  tallied : Text → Text → Server → Option Tally → List ServerMatch
  unfolding normalize_search_text search_fields matched_names text_eq
  tallied query alias s none = []
  tallied query alias s (some t) =
      record {
        alias = alias;
        server = s;
        score =
            full_score (normalize_search_text lower alias) (normalize_search_text lower query) t.0;
        matched_on = matched_names t.1 (search_fields lower alias s);
      }
      ∷ []

  -- The loop over the servers.
  unfoldable pub match_servers : Text → List Text → Map (Option Server) → List ServerMatch
  unfolding tallied match_terms search_fields
  match_servers query terms [] = []
  match_servers query terms ((alias, none) ∷ servers) = match_servers query terms servers
  match_servers query terms ((alias, some s) ∷ servers) =
      tallied query alias s (match_terms (search_fields lower alias s) terms (0, []))
      ++ match_servers query terms servers

-- The order of sort.Slice; no two matches share an alias.
unfoldable pub ranks_before : ServerMatch → ServerMatch → Bool
unfolding text_ltb
ranks_before a b = if nat_eq a.score b.score then text_ltb a.alias b.alias else ltb b.score a.score

unfoldable pub rank : ServerMatch → List ServerMatch → List ServerMatch
unfolding ranks_before
rank a [] = a ∷ []
rank a (b ∷ bs) = let rest = rank a bs in if ranks_before b a then b ∷ rest else a ∷ b ∷ bs

unfoldable pub rank_all : List ServerMatch → List ServerMatch
unfolding rank
rank_all [] = []
rank_all (a ∷ as') = rank a (rank_all as')

search_for : (ℕ → ℕ) → Map (Option Server) → Text → List Text → List ServerMatch
unfolding match_servers rank_all
search_for lower servers query terms =
    if is_nil terms then [] else rank_all (match_servers lower query terms servers)

-- SearchServers
unfoldable pub search_servers : (ℕ → ℕ) → Map (Option Server) → Text → List ServerMatch
unfolding search_terms search_for
search_servers lower servers query = search_for lower servers query (search_terms lower query)
