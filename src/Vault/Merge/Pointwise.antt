-- ===== src/Vault/Merge/Pointwise.antt =====
-- The merge refines the three-way choice at each identifier, whatever the other identifiers hold.
use sshm.Prelude.{false, [], none, ◌≡◌, refl, ◌∙◌, ap, arith}
use sshm.Text.{Text}
use sshm.Map.{Map, get}
use sshm.Map.Laws.{IsOrdered}
use sshm.Result.{ok, bind-eq-ok}
use sshm.Vault.{Credential, Data, Env, new_data, entry-discrete, deep_equal_iff}
use sshm.Vault.Valid.{validate}
use sshm.Vault.Merge.{
  is_deleted, any_of, choose_deleted, choose_conflict, select_entry, merge_entries, merge_parts,
  merge_rest, merge, merge_credentials, repair_compatible_conflicts,
}
use sshm.Vault.Merge.Maps.{
  choice, barred, result, member-any_of, deleted-any_of, conflicts-any_of, entries-merge_entries,
  conflicts-merge_entries, deleted-merge_entries, conflicts-IsOrdered-merge_entries,
  merge_conflicts-IsOrdered,
}
use sshm.Vault.Merge.Repair.{slot-repair_loop}
use sshm.Vault.Merge.Slot.{Slot, slot, repair_with, repair_at, chosen_at, merge_at}

-- With no entry on any side nothing is selected.
select-none :
    (env : Env) → select_entry env none none none ≡ record { selected = none; clash = false }
unfolding select_entry
select-none env = rw ((deep_equal_iff entry-discrete none none).1 refl)

module _ (env : Env) (base local remote : Data) (credentials : Map Credential) where
  start : Data
  start = merge_parts base local remote credentials

  merged : Data
  unfolding start
  merged =
      merge_entries env base local remote (any_of base.entries local.entries remote.entries) start

  deleted-start :
      (id : Text)
      → is_deleted start id
        ≡ choose_deleted (is_deleted base id) (is_deleted local id) (is_deleted remote id)
  unfolding start merge_parts
  deleted-start id = deleted-any_of base local remote id

  slot-merged :
      (id : Text) → slot merged id ≡ chosen_at env (slot base id) (slot local id) (slot remote id)
  unfolding merged chosen_at choice barred result
  slot-merged id =
      let ids = any_of base.entries local.entries remote.entries in
      let fresh : get id start.entries ≡ none = unfold start merge_parts new_data get in refl in
      let standing = conflicts-any_of base local remote id in
      let conflicts : get id start.conflicts
          ≡ choose_conflict (get id base.conflicts) (get id local.conflicts)
              (get id remote.conflicts) =
        unfold start merge_parts in standing in
      ground (
        arith,
        fresh,
        conflicts,
        select-none env,
        deleted-start id,
        deleted-merge_entries env base local remote ids start,
        member-any_of id base.entries local.entries remote.entries,
        entries-merge_entries env base local remote id ids start,
        conflicts-merge_entries env base local remote id ids start,
      )

  merged-IsOrdered : IsOrdered merged.conflicts
  unfolding merged start merge_parts
  merged-IsOrdered =
      conflicts-IsOrdered-merge_entries env base local remote
        (any_of base.entries local.entries remote.entries) start
        (merge_conflicts-IsOrdered base local remote
          (any_of base.conflicts local.conflicts remote.conflicts))

  slot-merge_rest :
      (id : Text)
      → slot (merge_rest env base local remote start) id
        ≡ merge_at env (slot base id) (slot local id) (slot remote id)
  slot-merge_rest id =
      unfold merge_rest repair_compatible_conflicts merged merge_at repair_at in
      slot-repair_loop env id merged.conflicts _ 0 merged-IsOrdered
      ∙ ap (λ (s : Slot). repair_with env s s.conflict) (slot-merged id)

merge-eq-ok :
    (env : Env) (base local remote : Data) {out : Data}
    → merge env base local remote ≡ ok out
    → (credentials : Map Credential) × (out
        ≡ merge_rest env base local remote (merge_parts base local remote credentials))
      × (validate env out ≡ ok tt)
unfolding merge
merge-eq-ok env base local remote {out} h =
    let (theirs, e1, h1) = bind-eq-ok (merge_credentials remote.credentials []) _ h in
    let (credentials, e2, h2) = bind-eq-ok (merge_credentials local.credentials theirs) _ h1 in
    let rest = merge_rest env base local remote (merge_parts base local remote credentials) in
    let (u, e3, h3) = bind-eq-ok (validate env rest) _ h2 in
    let same : out ≡ rest = cc h3 in (credentials, same, rw same e3)

-- Where Merge succeeds, what the new vault holds under an identifier (entry, conflict and tombstone)
-- is the three-way choice between what the baseline, the local and the remote vault hold there.
pub slot-merge :
    (env : Env) (base local remote : Data) {out : Data} (id : Text)
    → merge env base local remote ≡ ok out
    → slot out id ≡ merge_at env (slot base id) (slot local id) (slot remote id)
unfolding start
slot-merge env base local remote id h =
    let (credentials, e, v) = merge-eq-ok env base local remote h in
    ap (λ (d : Data). slot d id) e ∙ slot-merge_rest env base local remote credentials id
