-- ===== src/Config/Search/Found.antt =====
-- Which servers the search of internal/config/search.go finds, and in which order.
use sshm.Prelude.{ℕ, Bool, true, false, List, [], ◌∷◌, Option, none, some, ◌≡◌, any, every}
use sshm.Text.{Text, ◌==◌, contains}
use sshm.Map.{Map}
use sshm.Config.{Server}
use sshm.Config.Search.{ServerMatch, SearchField, Tally, search_fields, ranks_before}

-- Every term stands in some field, looked at without the search's own tests.
abbrev pub has_terms : List Text → List SearchField → Bool
has_terms terms fs = every (λ term. any (λ f. contains f.value term) fs) terms

abbrev pub finds : (ℕ → ℕ) → List Text → Text → Option (Option Server) → Bool
finds lower terms alias none = false
finds lower terms alias (some none) = false
finds lower terms alias (some (some s)) = has_terms terms (search_fields lower alias s)

abbrev pub lists : Text → List ServerMatch → Bool
lists alias = any (λ m. m.alias == alias)

-- Each match stands before those it ranks before, and no later one ranks before it.
abbrev pub NoneBefore : ServerMatch → List ServerMatch → Type 0
NoneBefore a [] = Unit
NoneBefore a (b ∷ bs) = (ranks_before b a ≡ false) × NoneBefore a bs

abbrev pub IsRanked : List ServerMatch → Type 0
IsRanked [] = Unit
IsRanked (a ∷ as') = NoneBefore a as' × IsRanked as'

abbrev is_found : Option Tally → Bool
is_found none = false
is_found (some t) = true
