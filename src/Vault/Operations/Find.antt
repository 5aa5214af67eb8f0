-- ===== src/Vault/Operations/Find.antt =====
-- What a successful lookup says.
use sshm.Prelude.{
  Bool, true, false, List, [], ◌∷◌, Option, none, some, ◌≡◌, ◌⊎◌, inl, inr, refl, sym, ◌∙◌, ap,
  arith, if◌then◌else◌, Bool-cases, elements,
}
use sshm.Text.{Text, ◌==◌, text_eq_iff}
use sshm.Map.{Map, get}
use sshm.Map.Laws.{IsOrdered, get-Above}
use sshm.Map.Keys.{member}
use sshm.Result.{ok}
use sshm.Vault.{Entry, Data}
use sshm.Vault.Operations.{with_alias, unless_conflict, only_one, find_from, find}

abbrev pub has_alias : Text → Entry → Bool
has_alias alias e = member alias (elements e.aliases)

with_alias-nil :
    (alias j : Text) (f : Entry) (m : Map Entry)
    → with_alias alias m ≡ []
    → get j m ≡ some f
    → has_alias alias f ≡ false
unfolding with_alias get
with_alias-nil alias j f [] h e = cc
with_alias-nil alias j f ((k, x) ∷ m) h e = ground (arith, with_alias-nil alias j f m)

-- The key of the only entry with the alias.
abbrev pub IsOnly : Text → Map Entry → Text → Entry → Type 0
IsOnly alias m k e =
    (get k m ≡ some e)
    × (has_alias alias e ≡ true)
    × ((j : Text) (f : Entry) → get j m ≡ some f → has_alias alias f ≡ true → j ≡ k)

get-first : (k : Text) (e : Entry) (m : Map Entry) → get k ((k, e) ∷ m) ≡ some e
unfolding get
get-first k e m = ground (arith, text_eq_iff k k)

get-rest :
    (j k : Text) (e : Entry) (m : Map Entry)
    → get j ((k, e) ∷ m) ≡ (if k == j then some e else get j m)
unfolding get
get-rest j k e m = refl

with_alias-one :
    (alias : Text) (e : Entry) (m : Map Entry)
    → IsOrdered m
    → with_alias alias m ≡ e ∷ []
    → (k : Text) × IsOnly alias m k e
unfolding with_alias
with_alias-one alias e [] o h = cc
with_alias-one alias e ((k, x) ∷ m) o h = elim (Bool-cases (has_alias alias x)) [
  | inl here ↦
      let found : x ∷ with_alias alias m ≡ e ∷ [] = rw here at h in
      let same : x ≡ e = cc found in
      let others : with_alias alias m ≡ [] = cc found in
      (
        k,
        (
          cc (get-first k x m, same),
          cc (here, same),
          λ j f at_j has.
              ground (arith, text_eq_iff k j, get-rest j k x m, with_alias-nil alias j f m others),
        ),
      )
  | inr other ↦
      let (k', (at_k, has, only)) = with_alias-one alias e m o.1 (rw other at h) in
      (
        k',
        (
          ground (arith, text_eq_iff k k', get-rest k' k x m, get-Above k m o.0),
          has,
          λ j f at_j has_j. ground (arith, text_eq_iff k j, get-rest j k x m, only j f),
        ),
      )
]

-- An entry that Find returns is free of conflicts, and is the entry with that identifier or else,
-- where no identifier is spelled so, the only entry with that alias.
pub find_lem :
    (d : Data) (alias : Text) {e : Entry}
    → IsOrdered d.entries
    → find d alias ≡ ok e
    → ((get alias d.entries ≡ some e) × (get alias d.conflicts ≡ none))
      ⊎ ((get alias d.entries ≡ none)
          × (get e.id d.conflicts ≡ none)
          × ((k : Text) × IsOnly alias d.entries k e))
unfolding find find_from only_one unless_conflict
find_lem d alias {e} o h = go (get alias d.entries) refl h
  where
    free :
        (id : Text) (x : Entry)
        → unless_conflict d id x ≡ ok e
        → (get id d.conflicts ≡ none) × (x ≡ e)
    free id x u = (ground arith, ground arith)

    one : (l : List Entry) → only_one d l ≡ ok e → (get e.id d.conflicts ≡ none) × (l ≡ e ∷ [])
    one [] u = cc
    one (x ∷ []) u =
        let (clear, same) = free x.id x u in
        (
          ap (λ (y : Entry). get y.id d.conflicts) (sym same) ∙ clear,
          ap (λ (y : Entry). y ∷ []) same,
        )
    one (x ∷ y ∷ l) u = cc

    go :
        (r : Option Entry)
        → get alias d.entries ≡ r
        → find_from d alias r ≡ ok e
        → ((get alias d.entries ≡ some e) × (get alias d.conflicts ≡ none))
          ⊎ ((get alias d.entries ≡ none)
              × (get e.id d.conflicts ≡ none)
              × ((k : Text) × IsOnly alias d.entries k e))
    go (some x) at_id u = let (clear, same) = free alias x u in inl (at_id ∙ ap some same, clear)
    go none at_id u =
        let (clear, l) = one (with_alias alias d.entries) u in
        inr (at_id, clear, with_alias-one alias e d.entries o l)
