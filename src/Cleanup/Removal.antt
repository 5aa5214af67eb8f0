-- ===== src/Cleanup/Removal.antt =====
-- The removal of selected servers: what it takes away, and that nothing refers to what is gone.
use sshm.Prelude.{
  ℤ, Bool, true, List, [], ◌∷◌, Option, none, some, ◌≡◌, refl, sym, ap, ◌∙◌, arith, if◌then◌else◌,
  Bool-cases, inl, inr,
}
use sshm.Text.{Text, ◌==◌, text_eq_iff}
use sshm.Text.Sort.{sort_strings}
use sshm.Map.{Map, get, remove, keys}
use sshm.Map.Laws.{IsOrdered, get-remove}
use sshm.Map.Keys.{member, holds, set_of, member-keys, member-set_of, member-sort_strings}
use sshm.Result.{ok, bind-eq-ok}
use sshm.Time.{Time}
use sshm.Config.{Server, Config}
use sshm.Config.References.{jumps_through}
use sshm.Config.References.Protection.{IsFree, unprotected-IsFree}
use sshm.Cleanup.{
  check_selected, check_all, remove_all, write_backup, remove_cleanup_servers, review, cutoff_of,
  review_days,
}
use sshm.Cleanup.Review.{aliases, is_candidate, member-review}

candidate-IsFree :
    (cfg : Config) (include_unknown : Bool) (cutoff : Time) (alias : Text)
    (o : Option (Option Server))
    → IsOrdered cfg.servers
    → IsOrdered cfg.projects
    → get alias cfg.servers ≡ o
    → holds (is_candidate cfg include_unknown cutoff) alias o ≡ true
    → IsFree cfg alias
candidate-IsFree cfg i cutoff alias none os op e h = cc
candidate-IsFree cfg i cutoff alias (some none) os op e h = cc
candidate-IsFree cfg i cutoff alias (some (some s)) os op e h =
    unprotected-IsFree cfg alias s os op e (ground arith)

check_selected-eq-ok :
    (cfg : Config) (eligible : List Text) (alias : Text)
    → check_selected cfg eligible alias ≡ ok tt
    → member alias eligible ≡ true
unfolding check_selected
check_selected-eq-ok cfg eligible alias h = ground arith

check_all-eq-ok :
    (cfg : Config) (eligible selected : List Text) (a : Text)
    → check_all cfg eligible selected ≡ ok tt
    → member a selected ≡ true
    → member a eligible ≡ true
unfolding check_all
check_all-eq-ok cfg eligible [] a h m = cc
check_all-eq-ok cfg eligible (b ∷ selected) a h m =
    let (u, checked, rest) = bind-eq-ok (check_selected cfg eligible b) _ h in
    elim (Bool-cases (b == a)) [
      | inl e ↦ ground (arith, text_eq_iff b a, check_selected-eq-ok cfg eligible b checked)
      | inr e ↦ check_all-eq-ok cfg eligible selected a rest (rw e at m)
    ]

pub get-remove_all :
    (j : Text) (selected : List Text) (m : Map (Option Server))
    → get j (remove_all selected m) ≡ (if member j selected then none else get j m)
unfolding remove_all
get-remove_all j [] m = refl
get-remove_all j (a ∷ selected) m =
    get-remove_all j selected (remove a m) ∙ ground (arith, get-remove j a m)

-- What nothing refers to is not referred to when servers are removed either.
removed-IsFree :
    (cfg : Config) (selected : List Text) (a : Text)
    → IsFree cfg a
    → IsFree (record cfg { servers = remove_all selected cfg.servers }) a
removed-IsFree cfg selected a free = record {
  not_default = free.not_default;
  no_project = free.no_project;
  no_jump = λ name.
      ap (holds (jumps_through a) name) (get-remove_all name selected cfg.servers)
      ∙ elim (Bool-cases (member name selected)) [
        | inl gone ↦ rw gone refl
        | inr stays ↦ rw stays (free.no_jump name)
      ];
}

-- What is taken away when the callback succeeds.
remove_cleanup_servers-eq-ok :
    (backup : Option Text) (now : Time) (names : List Text) (days : ℤ) (cfg : Config)
    {cfg' : Config} {removed : List Text} {path : Text}
    → remove_cleanup_servers backup now names days cfg ≡ ok (cfg', removed, path)
    → let selected = keys {0} (set_of tt names) in
      (check_all cfg (aliases (review (some cfg) now days true).candidates) selected ≡ ok tt)
      × (cfg' ≡ record cfg { servers = remove_all selected cfg.servers })
      × (removed ≡ sort_strings selected)
      × (backup ≡ some path)
unfolding remove_cleanup_servers write_backup
remove_cleanup_servers-eq-ok none now names days cfg h =
    let (u, checked, rest) = bind-eq-ok (check_all cfg _ (keys {0} (set_of tt names))) _ h in
    cc rest
remove_cleanup_servers-eq-ok (some p) now names days cfg h =
    let (u, checked, rest) = bind-eq-ok (check_all cfg _ (keys {0} (set_of tt names))) _ h in
    (checked, cc rest, cc rest, cc rest)

module _ (backup : Option Text) (now : Time) (names : List Text) (days : ℤ) (cfg : Config)
    {cfg' : Config} {removed : List Text} {path : Text} (servers_ordered : IsOrdered cfg.servers)
    (done : remove_cleanup_servers backup now names days cfg ≡ ok (cfg', removed, path)) where
  selected-member : (a : Text) → member a (keys {0} (set_of tt names)) ≡ member a names
  selected-member a = member-keys a (set_of tt names) ∙ member-set_of tt a names

  selected-is_candidate :
      (a : Text)
      → member a (keys {0} (set_of tt names)) ≡ true
      → holds (is_candidate cfg true (cutoff_of now (review_days days))) a (get a cfg.servers)
        ≡ true
  selected-is_candidate a m =
      sym (member-review cfg now days true a servers_ordered)
      ∙ check_all-eq-ok cfg _ _ a (remove_cleanup_servers-eq-ok backup now names days cfg done).0 m

  -- After a cleanup that succeeds nothing refers to a removed server: it is not the default, and no
  -- project and no proxy jump of the new document names it. The two maps of the document are ordered
  -- by their keys, as the model keeps maps; other references may dangle.
  pub remove_cleanup_servers-IsFree :
      (a : Text) → IsOrdered cfg.projects → member a names ≡ true → IsFree cfg' a
  remove_cleanup_servers-IsFree a projects_ordered m =
      let changed = (remove_cleanup_servers-eq-ok backup now names days cfg done).1 in
      rw changed (
        removed-IsFree cfg (keys {0} (set_of tt names)) a (
          candidate-IsFree cfg true (cutoff_of now (review_days days)) a (get a cfg.servers)
            servers_ordered projects_ordered refl
            (selected-is_candidate a (selected-member a ∙ m))))

  -- A cleanup that succeeds removes exactly the selected servers, each of them an unprotected and
  -- unused candidate, reports them, keeps projects and default, and has its backup written. The map of
  -- the servers is ordered by its keys, as the model keeps maps.
  pub remove_cleanup_servers_effect :
      ((j : Text) → get j cfg'.servers ≡ (if member j names then none else get j cfg.servers))
      × ((j : Text)
          → member j names ≡ true
          → holds (is_candidate cfg true (cutoff_of now (review_days days))) j (get j cfg.servers)
            ≡ true)
      × ((j : Text) → member j removed ≡ member j names)
      × (cfg'.projects ≡ cfg.projects)
      × (cfg'.default ≡ cfg.default)
      × (backup ≡ some path)
  remove_cleanup_servers_effect =
      let (checked, changed, names', wrote) =
        remove_cleanup_servers-eq-ok backup now names days cfg done in
      (
        (λ j. rw changed (rw (get-remove_all, selected-member j))),
        (λ j m. selected-is_candidate j (selected-member j ∙ m)),
        (λ j. rw names' (member-sort_strings j _ ∙ selected-member j)),
        rw changed,
        rw changed,
        wrote,
      )
