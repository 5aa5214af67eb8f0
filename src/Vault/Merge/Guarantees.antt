-- ===== src/Vault/Merge/Guarantees.antt =====
-- What the merge promises to the devices of an account.
use sshm.Prelude.{
  Bool, if◌then◌else◌, true, false, Option, none, some, ◌≡◌, ◌⊎◌, refl, sym, ◌∙◌, ap, arith,
}
use sshm.Text.{Text}
use sshm.Map.{get}
use sshm.Result.{ok}
use sshm.Vault.{
  Entry, Conflict, Data, Env, entry-discrete, conflict-discrete, deep_equal_iff, same_entry,
  same_conflict,
}
use sshm.Vault.Entries.{compatible_entries, merge_additions, merge_added}
use sshm.Vault.Merge.{
  is_deleted, choose_deleted, choose_conflict, select_entry, both_added, added_alike, merged_added,
  merge,
}
use sshm.Vault.Merge.Slot.{Slot, slot, repair_with, repair_at, chosen_at, merge_at}
use sshm.Vault.Merge.Pointwise.{slot-merge}

-- A vault is settled at an identifier without a conflict, where a tombstone excludes an entry.
pub record IsSettled (s : Slot) : Type 0 where
  pub no_conflict : s.conflict ≡ none
  pub tombstone_excludes : s.tombstone ≡ true → s.entry ≡ none

chosen_at-tombstone :
    (env : Env) (b l r : Slot)
    → (chosen_at env b l r).tombstone ≡ true
    → (chosen_at env b l r).entry ≡ none
unfolding chosen_at
chosen_at-tombstone env b l r h = ground arith

repair_with-tombstone :
    (env : Env) (s : Slot) (o : Option Conflict)
    → (repair_with env s o).tombstone ≡ true
    → (s.tombstone ≡ true) × (repair_with env s o ≡ s)
repair_with-tombstone env s none h = (h, refl)
repair_with-tombstone env s (some c) h = (ground arith, ground arith)

merge_at-tombstone :
    (env : Env) (b l r : Slot)
    → (merge_at env b l r).tombstone ≡ true
    → (merge_at env b l r).entry ≡ none
unfolding merge_at repair_at
merge_at-tombstone env b l r h =
    let s = chosen_at env b l r in
    let (dead, same) = repair_with-tombstone env s s.conflict h in
    ap (λ (t : Slot). t.entry) same ∙ chosen_at-tombstone env b l r dead

-- A merge that succeeds leaves no entry under a tombstone, whatever the three vaults held.
pub merge_no_resurrection :
    (env : Env) (base local remote : Data) {out : Data} (id : Text)
    → merge env base local remote ≡ ok out
    → is_deleted out id ≡ true
    → get id out.entries ≡ none
merge_no_resurrection env base local remote id h dead =
    let e = slot-merge env base local remote id h in
    ap (λ (s : Slot). s.entry) e
    ∙ merge_at-tombstone env (slot base id) (slot local id) (slot remote id)
        (sym (ap (λ (s : Slot). s.tombstone) e) ∙ dead)

same_entry_refl : (a : Option Entry) → same_entry a a ≡ true
same_entry_refl a = (deep_equal_iff entry-discrete a a).1 refl

same_conflict_refl : (a : Option Conflict) → same_conflict a a ≡ true
same_conflict_refl a = (deep_equal_iff conflict-discrete a a).1 refl

chosen_at-local : (env : Env) (b r : Slot) → IsSettled r → chosen_at env b b r ≡ r
unfolding chosen_at choose_deleted select_entry choose_conflict
chosen_at-local env b r s = ground (
  arith,
  same_entry_refl b.entry,
  deep_equal_iff entry-discrete b.entry r.entry,
  same_conflict_refl b.conflict,
  deep_equal_iff conflict-discrete b.conflict r.conflict,
)

chosen_at-remote : (env : Env) (b l : Slot) → IsSettled l → chosen_at env b l b ≡ l
unfolding chosen_at choose_deleted select_entry choose_conflict
chosen_at-remote env b l s = ground (
  arith,
  same_entry_refl b.entry,
  deep_equal_iff entry-discrete l.entry b.entry,
  deep_equal_iff entry-discrete b.entry l.entry,
  same_conflict_refl b.conflict,
  deep_equal_iff conflict-discrete l.conflict b.conflict,
)

repair_at-IsSettled : (env : Env) (s : Slot) → IsSettled s → repair_at env s ≡ s
unfolding repair_at
repair_at-IsSettled env s h = rw h.no_conflict

merge_takes_remote :
    (env : Env) (base local remote : Data) {out : Data} (id : Text)
    → merge env base local remote ≡ ok out
    → slot base id ≡ slot local id
    → IsSettled (slot remote id)
    → slot out id ≡ slot remote id
unfolding merge_at
merge_takes_remote env base local remote id h same settled =
    slot-merge env base local remote id h
    ∙ rw (← same) (
        ap (repair_at env) (chosen_at-local env (slot base id) (slot remote id) settled)
        ∙ repair_at-IsSettled env (slot remote id) settled)

pub merge_takes_local :
    (env : Env) (base local remote : Data) {out : Data} (id : Text)
    → merge env base local remote ≡ ok out
    → slot base id ≡ slot remote id
    → IsSettled (slot local id)
    → slot out id ≡ slot local id
unfolding merge_at
merge_takes_local env base local remote id h same settled =
    slot-merge env base local remote id h
    ∙ rw (← same) (
        ap (repair_at env) (chosen_at-remote env (slot base id) (slot local id) settled)
        ∙ repair_at-IsSettled env (slot local id) settled)

-- If only one side changed what an identifier holds, the remote one under `true` and the local one
-- under `false`, and is settled there, the merge takes its state: its entry or its tombstone, with no
-- conflict.
pub merge_takes_change :
    (env : Env) (base local remote : Data) {out : Data} (id : Text) (is_remote : Bool)
    → merge env base local remote ≡ ok out
    → slot base id ≡ slot (if is_remote then local else remote) id
    → IsSettled (slot (if is_remote then remote else local) id)
    → slot out id ≡ slot (if is_remote then remote else local) id
merge_takes_change env base local remote id true h same settled =
    merge_takes_remote env base local remote id h same settled
merge_takes_change env base local remote id false h same settled =
    merge_takes_local env base local remote id h same settled

-- An entry that joins the entries of both sides, where both have one.
abbrev pub IsJoined : Env → Option Entry → Option Entry → Option Entry → Type 0
IsJoined env l r out =
    (x : Entry) × ((y : Entry) × ((l ≡ some x)
        × ((r ≡ some y)
            × ((out ≡ some (merge_additions env x y)) ⊎ (out ≡ some (merge_added x y))))))

-- The merged slot shows the entry of one side: as it is, joined with the other side's, or as that
-- side of a recorded conflict.
abbrev pub Shows : Env → Slot → Slot → Slot → Option Entry → Type 0
Shows env l r out mine =
    (out.entry ≡ mine)
    ⊎ IsJoined env l.entry r.entry out.entry
    ⊎ (out.conflict ≡ some (record { local = l.entry; remote = r.entry }))

-- The entry chosen is one of the four of select_entry, each under its test.
abbrev IsSelected : Env → Slot → Slot → Slot → Slot → Option Entry → Type 0
IsSelected env b l r out mine =
    (out.entry ≡ mine)
    ⊎ ((compatible_entries env l.entry r.entry ≡ true)
        × (out.entry ≡ both_added env l.entry r.entry))
    ⊎ ((added_alike env b.entry l.entry r.entry ≡ true)
        × (out.entry ≡ merged_added l.entry r.entry))
    ⊎ (out.conflict ≡ some (record { local = l.entry; remote = r.entry }))
