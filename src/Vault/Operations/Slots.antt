-- ===== src/Vault/Operations/Slots.antt =====
-- Removal and resolution, and how they travel through a merge.
use sshm.Prelude.{true, false, Option, none, some, ◌≡◌, refl, ◌∙◌, arith, if◌then◌else◌}
use sshm.Text.{Text, ◌==◌, text_eq_iff, codes}
use sshm.Map.Laws.{get-put, get-remove}
use sshm.Result.{ok}
use sshm.Vault.{Entry, Conflict, Data, Env}
use sshm.Vault.Merge.{merge}
use sshm.Vault.Merge.Slot.{Slot, slot}
use sshm.Vault.Merge.Guarantees.{IsSettled, merge_takes_local}
use sshm.Vault.Operations.{remove_entry, settle}

-- The slot of an entry that was kept, and of one that was given up.
abbrev pub settled_slot : Option Entry → Slot
settled_slot none = record { entry = none; conflict = none; tombstone = true }
settled_slot (some e) = record { entry = some e; conflict = none; tombstone = false }

abbrev pub side_of : Conflict → Text → Option Entry
side_of c side = if side == codes "local" then c.local else c.remote

slot-settle :
    (d : Data) (id : Text) (o : Option Entry) (j : Text)
    → slot (settle d id o) j ≡ (if id == j then settled_slot o else slot d j)
unfolding settle remove_entry
slot-settle d id none j =
    ground
      (arith, get-remove j id d.entries, get-remove j id d.conflicts, get-put j id true d.deleted)
slot-settle d id (some e) j =
    ground (arith, get-put j id e d.entries, get-remove j id d.conflicts, get-remove j id d.deleted)

pub slot-remove_entry :
    (d : Data) (id j : Text)
    → slot (remove_entry d id) j ≡ (if id == j then settled_slot none else slot d j)
slot-remove_entry d id j = unfold settle in slot-settle d id none j

settled_slot-IsSettled : (o : Option Entry) → IsSettled (settled_slot o)
settled_slot-IsSettled none = record { no_conflict = refl; tombstone_excludes = λ h. refl }
settled_slot-IsSettled (some e) = record { no_conflict = refl; tombstone_excludes = λ h. cc }

at_self : (id : Text) (a b : Slot) → (if id == id then a else b) ≡ a
at_self id a b = rw ((text_eq_iff id id).1 refl)

-- A local removal survives the merge with an unchanged remote vault: the entry is gone and its
-- tombstone stays.
pub removal_survives_merge :
    (env : Env) (base : Data) (id : Text) {out : Data}
    → merge env base (remove_entry base id) base ≡ ok out
    → slot out id ≡ settled_slot none
removal_survives_merge env base id h =
    let here = slot-remove_entry base id id ∙ at_self id (settled_slot none) (slot base id) in
    merge_takes_local env base (remove_entry base id) base id h refl
      (rw here (settled_slot-IsSettled none))
    ∙ here
