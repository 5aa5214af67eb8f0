-- ===== src/Vault/Merge/Slot.antt =====
-- The specification of the merge at one identifier: what a vault holds there, and the three-way
-- choice between three such slots.
use sshm.Prelude.{Bool, not, ◌&&◌, ◌||◌, Option, none, some, if◌then◌else◌}
use sshm.Text.{Text}
use sshm.Map.{get, is_some}
use sshm.Vault.{Entry, Conflict, Data, Env}
use sshm.Vault.Entries.{compatible_entries}
use sshm.Vault.Merge.{is_deleted, choose_deleted, choose_conflict, select_entry, all_additions}

pub record Slot : Type 0 where
  pub entry : Option Entry
  pub conflict : Option Conflict
  pub tombstone : Bool

-- What a vault holds under an identifier.
abbrev pub slot : Data → Text → Slot
slot d id = record {
  entry = get id d.entries;
  conflict = get id d.conflicts;
  tombstone = is_deleted d id;
}

-- A conflict whose sides agree with the entry but for additions is joined into the entry.
abbrev pub repair_with : Env → Slot → Option Conflict → Slot
repair_with env s none = s
repair_with env s (some c) =
    if is_some s.entry
      && not s.tombstone
      && compatible_entries env c.local c.remote
      && compatible_entries env c.local s.entry
    then record s { entry = all_additions env c.local c.remote s.entry; conflict = none }
    else s

unfoldable pub repair_at : Env → Slot → Slot
repair_at env s = repair_with env s s.conflict

-- A tombstone bars an entry, which then stays as a conflict only.
unfoldable pub chosen_at : Env → Slot → Slot → Slot → Slot
chosen_at env b l r =
    let deleted = choose_deleted b.tombstone l.tombstone r.tombstone in
    let choice = select_entry env b.entry l.entry r.entry in
    let barred = deleted && is_some choice.selected in
    record {
      entry = if barred then none else choice.selected;
      conflict =
          if choice.clash || barred
          then some (record { local = l.entry; remote = r.entry })
          else choose_conflict b.conflict l.conflict r.conflict;
      tombstone = deleted;
    }

unfoldable pub merge_at : Env → Slot → Slot → Slot → Slot
merge_at env b l r = repair_at env (chosen_at env b l r)
