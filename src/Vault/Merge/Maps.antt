-- ===== src/Vault/Merge/Maps.antt =====
-- Each loop of the merge, seen at one identifier.
use sshm.Prelude.{
  Bool, true, false, ◌&&◌, ◌||◌, List, [], ◌∷◌, ◌++◌, Option, none, some, ◌≡◌, refl, ◌∙◌, arith,
  if◌then◌else◌,
}
use sshm.Text.{Text, ◌==◌, text_eq_iff}
use sshm.Map.{Map, get, put, keys, is_some}
use sshm.Map.Laws.{IsOrdered, get-put, put-IsOrdered}
use sshm.Map.Keys.{member, member-keys, member-set_of, set_of}
use sshm.Vault.{Entry, Conflict, Data, Env}
use sshm.Vault.Merge.{
  flag, is_deleted, any_of, choose_deleted, merge_deleted, choose_conflict, merge_conflicts,
  put_some, Selection, select_entry, merge_entry, merge_entries,
}

pub member-append :
    (a : Text) (xs ys : List Text) → member a (xs ++ ys) ≡ (member a xs || member a ys)
member-append a [] ys = refl
member-append a (x ∷ xs) ys = ground (arith, member-append a xs ys)

pub member-any_of {ℓ} :
    {V : Type ℓ} (id : Text) (a b c : Map V)
    → member id (any_of a b c) ≡ (is_some (get id a) || (is_some (get id b) || is_some (get id c)))
member-any_of id a b c =
    member-keys id (set_of true (keys a ++ (keys b ++ keys c)))
    ∙ member-set_of true id (keys a ++ (keys b ++ keys c))
    ∙ simp (member-append, member-keys)

pub get-put_some {ℓ} :
    {V : Type ℓ} (j id : Text) (o : Option V) (m : Map V)
    → get j (put_some id o m) ≡ (if is_some o && id == j then o else get j m)
get-put_some j id none m = refl
get-put_some j id (some v) m = get-put j id v m

get-merge_deleted :
    (base local remote : Data) (id : Text) (ids : List Text)
    → get id (merge_deleted base local remote ids) ≡ (
        if member id ids
          && choose_deleted (is_deleted base id) (is_deleted local id) (is_deleted remote id)
        then some true
        else none)
unfolding merge_deleted get
get-merge_deleted base local remote id [] = refl
get-merge_deleted base local remote id (j ∷ ids) = ground (
  arith,
  text_eq_iff j id,
  get-merge_deleted base local remote id ids,
  get-put id j true (merge_deleted base local remote ids),
)

get-merge_conflicts :
    (base local remote : Data) (id : Text) (ids : List Text)
    → get id (merge_conflicts base local remote ids) ≡ (
        if member id ids
        then choose_conflict
            (get id base.conflicts)
            (get id local.conflicts)
            (get id remote.conflicts)
        else none)
unfolding merge_conflicts
get-merge_conflicts base local remote id [] = unfold get in refl
get-merge_conflicts base local remote id (j ∷ ids) = ground (
  arith,
  text_eq_iff j id,
  get-merge_conflicts base local remote id ids,
  get-put_some id j
      (choose_conflict (get j base.conflicts) (get j local.conflicts) (get j remote.conflicts))
      (merge_conflicts base local remote ids),
)

pub deleted-any_of :
    (base local remote : Data) (id : Text)
    → flag (
        get id (merge_deleted base local remote (any_of base.deleted local.deleted remote.deleted)))
      ≡ choose_deleted (is_deleted base id) (is_deleted local id) (is_deleted remote id)
unfolding choose_deleted
deleted-any_of base local remote id = ground (
  arith,
  get-merge_deleted base local remote id (any_of base.deleted local.deleted remote.deleted),
  member-any_of id base.deleted local.deleted remote.deleted,
)

pub conflicts-any_of :
    (base local remote : Data) (id : Text)
    → get id
        (merge_conflicts base local remote (any_of base.conflicts local.conflicts remote.conflicts))
      ≡ choose_conflict (get id base.conflicts) (get id local.conflicts) (get id remote.conflicts)
unfolding choose_conflict
conflicts-any_of base local remote id = ground (
  arith,
  get-merge_conflicts base local remote id (any_of base.conflicts local.conflicts remote.conflicts),
  member-any_of id base.conflicts local.conflicts remote.conflicts,
)

IsOrdered-put_if :
    (a b : Bool) (id : Text) (c : Conflict) (m : Map Conflict)
    → IsOrdered m
    → IsOrdered (if a || b then put id c m else m)
IsOrdered-put_if true b id c m o = put-IsOrdered id c m o
IsOrdered-put_if false true id c m o = put-IsOrdered id c m o
IsOrdered-put_if false false id c m o = o

module _ (env : Env) (base local remote : Data) where
  unfoldable pub choice : Text → Selection
  choice j = select_entry env (get j base.entries) (get j local.entries) (get j remote.entries)

  unfoldable pub barred : Data → Text → Bool
  unfolding choice
  barred out j = is_deleted out j && is_some (choice j).selected

  unfoldable pub result : Data → Text → Option Entry
  unfolding choice barred
  result out j = if barred out j then none else (choice j).selected

  abbrev pub or_else : Option Entry → Option Entry → Option Entry
  or_else none o = o
  or_else (some e) o = some e

  deleted-merge_entry :
      (id : Text) (out : Data) → (merge_entry env base local remote id out).deleted ≡ out.deleted
  unfolding merge_entry
  deleted-merge_entry id out = refl

  pub deleted-merge_entries :
      (ids : List Text) (out : Data)
      → (merge_entries env base local remote ids out).deleted ≡ out.deleted
  unfolding merge_entries
  deleted-merge_entries [] out = refl
  deleted-merge_entries (id ∷ ids) out =
      deleted-merge_entries ids (merge_entry env base local remote id out)
      ∙ deleted-merge_entry id out

  entries-merge_entry :
      (j id : Text) (out : Data)
      → get j (merge_entry env base local remote id out).entries
        ≡ (if id == j then or_else (result out j) (get j out.entries) else get j out.entries)
  unfolding merge_entry result
  entries-merge_entry j id out =
      ground (arith, text_eq_iff id j, get-put_some j id (choice id).selected out.entries)

  conflicts-merge_entry :
      (j id : Text) (out : Data)
      → get j (merge_entry env base local remote id out).conflicts ≡ (
          if id == j && ((choice j).clash || barred out j)
          then some (record { local = get j local.entries; remote = get j remote.entries })
          else get j out.conflicts)
  unfolding merge_entry barred
  conflicts-merge_entry j id out = ground (
    arith,
    text_eq_iff id j,
    get-put j id (record { local = get id local.entries; remote = get id remote.entries })
        out.conflicts,
  )

  pub entries-merge_entries :
      (j : Text) (ids : List Text) (out : Data)
      → get j (merge_entries env base local remote ids out).entries
        ≡ (if member j ids then or_else (result out j) (get j out.entries) else get j out.entries)
  unfolding merge_entries
  entries-merge_entries j [] out = refl
  entries-merge_entries j (id ∷ ids) out =
      let out' = merge_entry env base local remote id out in
      let same : result out' j ≡ result out j = unfold merge_entry result barred in refl in
      ground (
        arith,
        same,
        text_eq_iff id j,
        entries-merge_entries j ids out',
        entries-merge_entry j id out,
      )

  pub conflicts-merge_entries :
      (j : Text) (ids : List Text) (out : Data)
      → get j (merge_entries env base local remote ids out).conflicts ≡ (
          if member j ids && ((choice j).clash || barred out j)
          then some (record { local = get j local.entries; remote = get j remote.entries })
          else get j out.conflicts)
  unfolding merge_entries
  conflicts-merge_entries j [] out = refl
  conflicts-merge_entries j (id ∷ ids) out =
      let out' = merge_entry env base local remote id out in
      let same : barred out' j ≡ barred out j = unfold merge_entry barred in refl in
      ground (
        arith,
        same,
        text_eq_iff id j,
        conflicts-merge_entries j ids out',
        conflicts-merge_entry j id out,
      )

  conflicts-IsOrdered-merge_entry :
      (id : Text) (out : Data)
      → IsOrdered out.conflicts
      → IsOrdered (merge_entry env base local remote id out).conflicts
  unfolding merge_entry choice barred
  conflicts-IsOrdered-merge_entry id out o =
      IsOrdered-put_if (choice id).clash (barred out id) id
        (record { local = get id local.entries; remote = get id remote.entries }) out.conflicts o

  pub conflicts-IsOrdered-merge_entries :
      (ids : List Text) (out : Data)
      → IsOrdered out.conflicts
      → IsOrdered (merge_entries env base local remote ids out).conflicts
  unfolding merge_entries
  conflicts-IsOrdered-merge_entries [] out o = o
  conflicts-IsOrdered-merge_entries (id ∷ ids) out o =
      conflicts-IsOrdered-merge_entries ids (merge_entry env base local remote id out)
        (conflicts-IsOrdered-merge_entry id out o)

put_some-IsOrdered {ℓ} :
    {V : Type ℓ} (id : Text) (o : Option V) (m : Map V) → IsOrdered m → IsOrdered (put_some id o m)
put_some-IsOrdered id none m h = h
put_some-IsOrdered id (some v) m h = put-IsOrdered id v m h

pub merge_conflicts-IsOrdered :
    (base local remote : Data) (ids : List Text) → IsOrdered (merge_conflicts base local remote ids)
unfolding merge_conflicts
merge_conflicts-IsOrdered base local remote [] = tt
merge_conflicts-IsOrdered base local remote (id ∷ ids) =
    put_some-IsOrdered id
      (choose_conflict (get id base.conflicts) (get id local.conflicts) (get id remote.conflicts))
      (merge_conflicts base local remote ids) (merge_conflicts-IsOrdered base local remote ids)
