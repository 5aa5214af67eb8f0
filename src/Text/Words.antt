-- ===== src/Text/Words.antt =====
-- The words of strings.Fields.
use sshm.Prelude.{Bool, true, not, List, [], ◌∷◌, ◌++◌, ◌≡◌, refl, arith, is_nil, every}
use sshm.Text.{Text, fields, fields_from}

abbrev pub all_words : List Text → Bool
all_words = every (λ w. not (is_nil w))

fields_from-all_words : (word s : Text) → all_words (fields_from word s) ≡ true
unfolding fields_from
fields_from-all_words [] [] = refl
fields_from-all_words (w ∷ word) [] = refl
fields_from-all_words [] (c ∷ s) =
    ground (arith, fields_from-all_words [] s, fields_from-all_words (c ∷ []) s)
fields_from-all_words (w ∷ word) (c ∷ s) =
    ground (arith, fields_from-all_words [] s, fields_from-all_words (w ∷ word ++ (c ∷ [])) s)

-- No word is empty.
pub fields-all_words : (s : Text) → all_words (fields s) ≡ true
unfolding fields
fields-all_words s = fields_from-all_words [] s
