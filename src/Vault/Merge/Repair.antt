-- ===== src/Vault/Merge/Repair.antt =====
-- RepairCompatibleConflicts, seen at one identifier.
use sshm.Prelude.{
  ℕ, false, [], ◌∷◌, some, ◌≡◌, refl, ◌∙◌, arith, if◌then◌else◌, Bool-cases, inl, inr,
}
use sshm.Text.{Text, ◌==◌, text_eq_iff}
use sshm.Map.{Map, get}
use sshm.Map.Laws.{IsOrdered, get-remove, get-Above}
use sshm.Vault.{Conflict, Data, Env}
use sshm.Vault.Entries.{compatible_entries}
use sshm.Vault.Merge.{can_repair, repair_one, repair_loop, all_additions}
use sshm.Vault.Merge.Maps.{get-put_some}
use sshm.Vault.Merge.Slot.{slot, repair_with}

slot-repair_one :
    (env : Env) (j id : Text) (c : Conflict) (d : Data)
    → slot (repair_one env id c d) j
      ≡ (if id == j then repair_with env (slot d j) (some c) else slot d j)
unfolding repair_one can_repair compatible_entries
slot-repair_one env j id c d = ground (
  arith,
  text_eq_iff id j,
  get-remove j id d.conflicts,
  get-put_some j id (all_additions env c.local c.remote (get id d.entries)) d.entries,
)

get-head : (id : Text) (c : Conflict) (m : Map Conflict) → get id ((id, c) ∷ m) ≡ some c
unfolding get
get-head id c m = ground (arith, text_eq_iff id id)

get-skip :
    (j id : Text) (c : Conflict) (m : Map Conflict)
    → (id == j) ≡ false
    → get j ((id, c) ∷ m) ≡ get j m
unfolding get
get-skip j id c m e = rw e

pub slot-repair_loop :
    (env : Env) (j : Text) (m : Map Conflict) (d : Data) (n : ℕ)
    → IsOrdered m
    → slot (repair_loop env m (d, n)).0 j ≡ repair_with env (slot d j) (get j m)
unfolding repair_loop
slot-repair_loop env j [] d n o = unfold get in refl
slot-repair_loop env j ((id, c) ∷ m) d n o =
    slot-repair_loop env j m (repair_one env id c d) _ o.1 ∙ elim (Bool-cases (id == j)) [
      | inl e ↦
          let k = (text_eq_iff id j).0 e in
          ground (arith, e, k, slot-repair_one env j id c d, get-Above id m o.0, get-head id c m)
      | inr e ↦ ground (arith, e, slot-repair_one env j id c d, get-skip j id c m)
    ]
