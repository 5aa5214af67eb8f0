-- ===== src/Vault/Merge.antt =====
-- internal/cloudsync/data.go and merge_additions.go: the three-way merge of two vaults over their
-- common baseline.
pub mod Slot
pub mod Maps
pub mod Repair
pub mod Pointwise
pub mod Guarantees
use sshm.Prelude.{
  ℕ, ◌+◌, suc, ℤ, Bool, true, false, not, ◌&&◌, ◌||◌, List, [], ◌∷◌, ◌++◌, Option, none, some,
  if◌then◌else◌,
}
use sshm.Text.{Text, ◌==◌}
use sshm.Map.{Map, is_some}
unfoldable use sshm.Map.{get, put, remove, keys}
unfoldable use sshm.Map.Keys.{set_of}
use sshm.Inventory.{Snapshot}
unfoldable use sshm.Inventory.{newer}
use sshm.Result.{Result, ok, err, ◌>>=◌, ◌>>◌, fail_if}
use sshm.Vault.{Credential, Entry, Conflict, Activity, Data, Env, same_entry, same_conflict}
unfoldable use sshm.Vault.{
  deep_equal, new_data, entry-discrete, conflict-discrete, Credential-discrete,
}
use sshm.Vault.Observed.{zero_activity}
unfoldable use sshm.Vault.Observed.{merge_activity}
unfoldable use sshm.Vault.Entries.{entry_id, compatible_entries, merge_additions, merge_added}
use sshm.Vault.Valid.{VaultError, immutable_credential}
unfoldable use sshm.Vault.Valid.{validate}

-- d.Deleted[id]
abbrev pub flag : Option Bool → Bool
flag none = false
flag (some b) = b

abbrev pub is_deleted : Data → Text → Bool
is_deleted d id = flag (get id d.deleted)

-- The zero value of a missing key.
abbrev pub snapshot_at : Option (Option Snapshot) → Option Snapshot
snapshot_at none = none
snapshot_at (some h) = h

abbrev pub activity_at : Option Activity → Activity
activity_at none = zero_activity
activity_at (some a) = a

-- The three inner loops over one source.
unfoldable pub merge_hardware :
    Map (Option Snapshot) → Map (Option Snapshot) → Map (Option Snapshot)
merge_hardware [] out = out
merge_hardware ((id, h) ∷ m) out =
    merge_hardware m (put id (newer (snapshot_at (get id out)) h) out)

unfoldable pub merge_activities : Map Activity → Map Activity → Map Activity
merge_activities [] out = out
merge_activities ((id, a) ∷ m) out =
    merge_activities m (put id (merge_activity (activity_at (get id out)) a) out)

-- old, ok := out.Credentials[id]; ok && !reflect.DeepEqual(old, c)
unfoldable pub replaces : Option Credential → Credential → Bool
replaces none c = false
replaces (some old) c = not (deep_equal Credential-discrete old c)

-- append([]byte(nil), b...) is nil for an empty slice too.
abbrev pub copy_bytes : Option (List ℕ) → Option (List ℕ)
copy_bytes none = none
copy_bytes (some []) = none
copy_bytes (some (b ∷ bs)) = some (b ∷ bs)

abbrev pub copied : Credential → Credential
copied c = record c { key = copy_bytes c.key; passphrase = copy_bytes c.passphrase }

unfoldable pub merge_credentials :
    Map Credential → Map Credential → Result VaultError (Map Credential)
unfolding replaces
merge_credentials [] out = ok out
merge_credentials ((id, c) ∷ m) out =
    let rest = merge_credentials m (put id (copied c) out) in
    if replaces (get id out) c then err immutable_credential else rest

-- The identifiers that one of the three has.
abbrev pub any_of {ℓ} : {V : Type ℓ} → Map V → Map V → Map V → List Text
any_of a b c = keys {0} (set_of true (keys a ++ (keys b ++ keys c)))

bool_eq : Bool → Bool → Bool
bool_eq true b = b
bool_eq false b = not b

unfoldable pub choose_deleted : Bool → Bool → Bool → Bool
unfolding bool_eq
choose_deleted b l r = if bool_eq l r || bool_eq r b then l else r

unfoldable pub merge_deleted : Data → Data → Data → List Text → Map Bool
unfolding choose_deleted
merge_deleted base local remote [] = []
merge_deleted base local remote (id ∷ ids) =
    let rest = merge_deleted base local remote ids in
    if choose_deleted (is_deleted base id) (is_deleted local id) (is_deleted remote id)
    then put id true rest
    else rest

unfoldable pub choose_conflict :
    Option Conflict → Option Conflict → Option Conflict → Option Conflict
choose_conflict b l r = if same_conflict l r || same_conflict b r then l else r

-- if v != nil { m[k] = *v }
abbrev pub put_some {ℓ} : {V : Type ℓ} → Text → Option V → Map V → Map V
put_some id none m = m
put_some id (some v) m = put id v m

unfoldable pub merge_conflicts : Data → Data → Data → List Text → Map Conflict
unfolding choose_conflict
merge_conflicts base local remote [] = []
merge_conflicts base local remote (id ∷ ids) =
    put_some id
      (choose_conflict (get id base.conflicts) (get id local.conflicts) (get id remote.conflicts))
      (merge_conflicts base local remote ids)

-- What the switch of Merge selects, and whether it records a conflict.
pub record Selection : Type 0 where
  pub selected : Option Entry
  pub clash : Bool

-- merged := mergeAdditions(*l, *r)
abbrev pub both_added : Env → Option Entry → Option Entry → Option Entry
both_added env (some l) (some r) = some (merge_additions env l r)
both_added env _ _ = none

-- b == nil && l != nil && r != nil && EntryID(l.Server) == EntryID(r.Server)
unfoldable pub added_alike : Env → Option Entry → Option Entry → Option Entry → Bool
added_alike env none (some l) (some r) = entry_id env l.server == entry_id env r.server
added_alike env _ _ _ = false

abbrev pub merged_added : Option Entry → Option Entry → Option Entry
merged_added (some l) (some r) = some (merge_added l r)
merged_added _ _ = none

unfoldable pub select_entry : Env → Option Entry → Option Entry → Option Entry → Selection
unfolding added_alike
select_entry env b l r =
    if same_entry l r
    then record { selected = l; clash = false }
    else if same_entry b l
    then record { selected = r; clash = false }
    else if same_entry b r
    then record { selected = l; clash = false }
    else if compatible_entries env l r
    then record { selected = both_added env l r; clash = false }
    else if added_alike env b l r
    then record { selected = merged_added l r; clash = false }
    else record { selected = r; clash = true }

-- One turn of the loop over the entries.
unfoldable pub merge_entry : Env → Data → Data → Data → Text → Data → Data
unfolding select_entry
merge_entry env base local remote id out =
    let l = get id local.entries in
    let r = get id remote.entries in
    let choice = select_entry env (get id base.entries) l r in
    let barred = is_deleted out id && is_some choice.selected in
    record out {
      conflicts =
          if choice.clash || barred
          then put id (record { local = l; remote = r }) out.conflicts
          else out.conflicts;
      entries = if barred then out.entries else put_some id choice.selected out.entries;
    }

unfoldable pub merge_entries : Env → Data → Data → Data → List Text → Data → Data
unfolding merge_entry
merge_entries env base local remote [] out = out
merge_entries env base local remote (id ∷ ids) out =
    merge_entries env base local remote ids (merge_entry env base local remote id out)

-- Observations of entries that are gone.
unfoldable pub drop_activities : Map Entry → Map Activity → Map Activity
drop_activities entries [] = []
drop_activities entries ((id, a) ∷ m) =
    let rest = drop_activities entries m in
    if is_some (get id entries) then (id, a) ∷ rest else rest

-- One turn of the loop of RepairCompatibleConflicts, and the count of repairs.
abbrev pub all_additions : Env → Option Entry → Option Entry → Option Entry → Option Entry
all_additions env (some l) (some r) (some current) =
    some (merge_additions env (merge_additions env l r) current)
all_additions env _ _ _ = none

unfoldable pub can_repair : Env → Data → Text → Conflict → Bool
can_repair env d id c =
    is_some (get id d.entries)
    && not (is_deleted d id)
    && compatible_entries env c.local c.remote
    && compatible_entries env c.local (get id d.entries)

unfoldable pub repair_one : Env → Text → Conflict → Data → Data
unfolding can_repair
repair_one env id c d =
    if can_repair env d id c
    then record d {
      entries = put_some id (all_additions env c.local c.remote (get id d.entries)) d.entries;
      conflicts = remove id d.conflicts;
    }
    else d

unfoldable pub repair_loop : Env → Map Conflict → Data × ℕ → Data × ℕ
unfolding repair_one
repair_loop env [] out = out
repair_loop env ((id, c) ∷ m) (d, repaired) =
    repair_loop env m
      (repair_one env id c d, (if can_repair env d id c then repaired + 1 else repaired))

-- RepairCompatibleConflicts
unfoldable pub repair_compatible_conflicts : Env → Data → Data × ℕ
unfolding repair_loop
repair_compatible_conflicts env d = repair_loop env d.conflicts (d, 0)

-- Merge, up to the entries.
unfoldable pub merge_parts : Data → Data → Data → Map Credential → Data
unfolding merge_hardware merge_activities merge_deleted merge_conflicts new_data
merge_parts base local remote credentials = record new_data {
  hardware = merge_hardware local.hardware (merge_hardware remote.hardware []);
  activity = merge_activities local.activity (merge_activities remote.activity []);
  credentials = credentials;
  deleted = merge_deleted base local remote (any_of base.deleted local.deleted remote.deleted);
  conflicts =
      merge_conflicts base local remote (any_of base.conflicts local.conflicts remote.conflicts);
}

-- The merged entries and what follows them, before Validate.
unfoldable pub merge_rest : Env → Data → Data → Data → Data → Data
unfolding merge_entries drop_activities repair_compatible_conflicts
merge_rest env base local remote out =
    let merged =
      merge_entries env base local remote (any_of base.entries local.entries remote.entries) out in
    (repair_compatible_conflicts env
      (record merged { activity = drop_activities merged.entries merged.activity })).0

-- Merge. With an error the caller drops the data.
unfoldable pub merge : Env → Data → Data → Data → Result VaultError Data
unfolding merge_credentials merge_parts merge_rest
merge env base local remote = do
  theirs ← merge_credentials remote.credentials []
  credentials ← merge_credentials local.credentials theirs
  let out = merge_rest env base local remote (merge_parts base local remote credentials)
  validate env out
  ok out
