-- ===== src/Tests/Vaults.antt =====
-- The vault: merges of two devices, resolutions and lookups.
use sshm.Prelude.{
  ℤ, pos, max_ℤ, if◌then◌else◌, ◌≤ℤ◌, true, false, [], ◌∷◌, ◌++◌, none, some, ◌≡◌, refl, ℕ_discrete,
  ℤ-discrete,
}
use sshm.Text.{Text, codes, text_eq, trim_space, to_lower}
use sshm.Text.Order.{text_ltb}
use sshm.Text.Sort.{sort_strings}
use sshm.Map.{get, put, remove, keys}
use sshm.Map.Keys.{set_of}
use sshm.Result.{ok}
use sshm.Config.{Server-discrete}
use sshm.Config.Metadata.{validate_server_metadata_bounds}
use sshm.Inventory.{Snapshot-discrete, Disk-discrete}
use sshm.Vault.{
  Entry, Data, Env, Digested, connection, names, source, credential, new_data, deep_equal,
  entry-discrete, conflict-discrete, Entry-discrete, Source-discrete,
}
use sshm.Vault.Valid.{validate}
use sshm.Vault.Entries.{union, compatible_entries, clean_server}
use sshm.Vault.Merge.{merge}
use sshm.Vault.Merge.Slot.{slot, merge_at}
use sshm.Vault.Merge.Pointwise.{slot-merge}
use sshm.Vault.Merge.{is_deleted}
use sshm.Vault.Merge.Guarantees.{IsSettled, merge_no_resurrection, merge_takes_change}
use sshm.Vault.Operations.{remove_entry, resolve, find}
use sshm.Vault.Operations.Slots.{settled_slot, removal_survives_merge}
use sshm.Vault.Operations.Find.{IsOnly, find_lem}
use sshm.Vault.Entries.Union.{union_semilattice}
use sshm.Map.Keys.{member, IsAscending}
use sshm.Inventory.{Snapshot, newer}
use sshm.Vault.{Activity}
use sshm.Vault.Observed.{zero_activity}
use sshm.Prelude.{if◌then◌else◌, elements, max_ℤ, ◌≤ℤ◌, ◌⊎◌, ◌||◌}
use sshm.Tests.Data.{server_at}

-- A digest that keeps what it is taken of.
abbrev digest : Digested → Text
digest (connection host port user auth jump command proxy forwards) = codes "connection-" ++ host
digest (names a b) = codes "names-" ++ (a ++ b)
digest (source s) = codes "source-" ++ s.alias
digest (credential c) = codes "credential-" ++ c.password

abbrev pub env : Env
env = record { lower = λ c. c; digest = digest; now_plus_day = pos 1_000_000 }

abbrev pub id : Text
id = codes "entry-web"

abbrev pub entry : Text → Entry
entry alias = record {
  id = id;
  aliases = some (alias ∷ []);
  server = server_at "web.example";
  credential_ids = some [];
  sources = some [];
}

abbrev pub holding : Entry → Data
holding e = record new_data { entries = (id, e) ∷ [] }

abbrev base : Data
base = holding (entry (codes "web"))

abbrev renamed : Data
renamed = holding (entry (codes "www"))

abbrev moved : Data
moved = holding (record (entry (codes "web")) { server = server_at "new.example" })

removed : Data
unfolding remove_entry remove put text_eq new_data
removed = remove_entry base id

-- Both devices edited the entry: the remote one is in force, and both are kept.
disputed : Data
unfolding moved
disputed = record moved {
  conflicts = (id, record { local = get id renamed.entries; remote = get id moved.entries }) ∷ [];
}

-- The entry was removed here and edited there.
barred : Data
unfolding new_data
barred = record new_data {
  deleted = (id, true) ∷ [];
  conflicts = (id, record { local = none; remote = get id moved.entries }) ∷ [];
}

-- What a test of the merge computes with.
computing : Unit {0}
unfolding merge new_data get put remove keys set_of text_eq text_ltb sort_strings deep_equal
    entry-discrete conflict-discrete Entry-discrete Source-discrete Server-discrete
    Snapshot-discrete Disk-discrete ℤ-discrete ℕ_discrete union compatible_entries clean_server
    validate trim_space validate_server_metadata_bounds removed disputed barred remove_entry resolve
    find to_lower
computing = tt

merge-renamed : merge env base renamed base ≡ ok renamed
unfolding computing
merge-renamed = refl

merge-moved : merge env base base moved ≡ ok moved
unfolding computing
merge-moved = refl

merge-disputed : merge env base renamed moved ≡ ok disputed
unfolding computing
merge-disputed = refl

merge-barred : merge env base removed moved ≡ ok barred
unfolding computing
merge-barred = refl

merge-removed : merge env base removed base ≡ ok removed
unfolding computing
merge-removed = refl

found : find base (codes "web") ≡ ok (entry (codes "web"))
unfolding computing
found = refl

slot-merge_example :
    slot disputed id ≡ merge_at env (slot base id) (slot renamed id) (slot moved id)
slot-merge_example = slot-merge env base renamed moved id merge-disputed

barred-tombstone : is_deleted barred id ≡ true
unfolding computing
barred-tombstone = refl

merge_no_resurrection_example : get id barred.entries ≡ none
merge_no_resurrection_example =
    merge_no_resurrection env base removed moved id merge-barred barred-tombstone

holding-IsSettled : (e : Entry) → IsSettled (slot (holding e) id)
unfolding new_data get
holding-IsSettled e = record { no_conflict = refl; tombstone_excludes = λ h. cc }

merge_takes_change_example : slot moved id ≡ slot moved id
merge_takes_change_example =
    merge_takes_change env base base moved id true merge-moved refl
      (holding-IsSettled (record (entry (codes "web")) { server = server_at "new.example" }))

-- The same for a change of the local side.
local_change_test : slot renamed id ≡ slot renamed id
local_change_test =
    merge_takes_change env base renamed base id false merge-renamed refl
      (holding-IsSettled (entry (codes "www")))

removal_survives_merge_example : slot removed id ≡ settled_slot none
unfolding removed
removal_survives_merge_example = removal_survives_merge env base id merge-removed

find_lem_example :
    ((get (codes "web") base.entries ≡ some (entry (codes "web")))
      × (get (codes "web") base.conflicts ≡ none))
    ⊎ ((get (codes "web") base.entries ≡ none)
        × (get id base.conflicts ≡ none)
        × ((k : Text) × IsOnly (codes "web") base.entries k (entry (codes "web"))))
find_lem_example = find_lem base (codes "web") (tt, tt) found

union_semilattice_example :
    ((a : Text)
      → member a (elements (union (some (codes "b" ∷ [])) none))
        ≡ (member a (codes "b" ∷ []) || member a []))
    × IsAscending (elements (union (some (codes "b" ∷ [])) none))
    × (union (some (codes "b" ∷ [])) none ≡ union none (some (codes "b" ∷ [])))
    × (union (union (some (codes "b" ∷ [])) none) none
        ≡ union (some (codes "b" ∷ [])) (union none none))
    × (union (some (codes "b" ∷ [])) (union (some (codes "b" ∷ [])) none)
        ≡ union (some (codes "b" ∷ [])) none)
union_semilattice_example = union_semilattice (some (codes "b" ∷ [])) none none

abbrev sample : Text → ℤ → Snapshot
sample status at = record {
  attempted_at = pos 0;
  refresh_failed = false;
  checked_at = at;
  status = status;
  platform = [];
  os = [];
  arch = [];
  cpu = [];
  cores = pos 2;
  threads = pos 4;
  memory_total = 8;
  memory_available = some 3;
  disks = none;
  notes = none;
}

abbrev stale : Snapshot
stale = record (sample (codes "ok") (pos 5)) { attempted_at = pos 9; refresh_failed = true }

-- The other way round the failed refresh stays, and the sample that was read is dropped.
failed_first :
    newer (some (sample (codes "unavailable") (pos 10))) (some (sample (codes "ok") (pos 5)))
    ≡ some (sample (codes "unavailable") (pos 10))
unfolding newer text_eq
failed_first = refl

abbrev seen : ℤ → Activity
seen at = record zero_activity {
  last_connected = at;
  last_seen = at;
  hardware = some (sample (codes "ok") at);
}
