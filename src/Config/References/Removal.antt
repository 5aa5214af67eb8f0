-- ===== src/Config/References/Removal.antt =====
-- Removing a server: when it is refused, what it changes, and that no reference is left dangling.
use mathlib.Core.Option
use sshm.Prelude.{
  true, false, List, [], ◌∷◌, Option, none, some, ◌≡◌, ◌≢◌, ◌↔◌, refl, sym, ◌∙◌, arith,
  if◌then◌else◌, Bool-cases, inl, inr,
}
use sshm.Text.{Text, ◌==◌, text_eq_iff, trim_space}
use sshm.Map.{Map, get, remove, is_some}
use sshm.Map.Laws.{IsOrdered, Above, get-remove, remove-IsOrdered}
use sshm.Map.Keys.{keys_where, member, member-keys_where, member-sort_strings, holds}
use sshm.Result.{ok, bind-eq-ok}
use sshm.Config.{Server, Project, Config}
use sshm.Config.References.{
  project_uses, jumps_through, projects_using_server, servers_using_proxy_jump, refuse_users,
  check_server_removal, clear_project, clear_projects, remove_server,
}

-- Every name in the document that stands for a server is the name of one; the maps are maps.
pub record IsClosed (cfg : Config) : Type 0 where
  pub servers_ordered : IsOrdered cfg.servers
  pub projects_ordered : IsOrdered cfg.projects
  pub jumps :
      (name : Text) (s : Server)
      → get name cfg.servers ≡ some (some s)
      → trim_space s.proxy_jump ≢ []
      → is_some (get (trim_space s.proxy_jump) cfg.servers) ≡ true
  pub project_servers :
      (name : Text) (p : Project)
      → get name cfg.projects ≡ some (some p)
      → p.server ≢ []
      → is_some (get p.server cfg.servers) ≡ true
  pub default_known : cfg.default ≢ [] → is_some (get cfg.default cfg.servers) ≡ true

-- A name stands in ServersUsingProxyJump exactly when its server jumps through the alias.
pub member-servers_using_proxy_jump :
    (cfg : Config) (alias name : Text)
    → IsOrdered cfg.servers
    → member name (servers_using_proxy_jump (some cfg) alias)
      ≡ holds (jumps_through alias) name (get name cfg.servers)
unfolding servers_using_proxy_jump
member-servers_using_proxy_jump cfg alias name o =
    member-sort_strings name (keys_where (jumps_through alias) cfg.servers)
    ∙ member-keys_where (jumps_through alias) name cfg.servers o

-- A name stands in ProjectsUsingServer exactly when its project names the alias.
pub member-projects_using_server :
    (cfg : Config) (alias name : Text)
    → IsOrdered cfg.projects
    → member name (projects_using_server (some cfg) alias)
      ≡ holds (project_uses alias) name (get name cfg.projects)
unfolding projects_using_server
member-projects_using_server cfg alias name o =
    member-sort_strings name (keys_where (project_uses alias) cfg.projects)
    ∙ member-keys_where (project_uses alias) name cfg.projects o

pub nil_of_no_member : (l : List Text) → ((a : Text) → member a l ≡ false) → l ≡ []
nil_of_no_member [] h = refl
nil_of_no_member (a ∷ l) h = ground (arith, h a, text_eq_iff a a)

refuse_users-eq-ok : (alias : Text) (l : List Text) → refuse_users alias l ≡ ok tt → l ≡ []
unfolding refuse_users
refuse_users-eq-ok alias [] h = refl
refuse_users-eq-ok alias (a ∷ l) h = cc

check-eq-ok :
    (cfg : Config) (alias : Text)
    → check_server_removal (some cfg) alias ≡ ok tt
    → (is_some (get alias cfg.servers) ≡ true) × (servers_using_proxy_jump (some cfg) alias ≡ [])
unfolding check_server_removal
check-eq-ok cfg alias h = elim (Bool-cases (is_some (get alias cfg.servers))) [
  | inl e ↦ (e, refuse_users-eq-ok alias _ (rw e at h))
  | inr e ↦ cc (rw e at h)
]

-- Nothing jumps through a server whose removal is accepted.
pub no_jumps :
    (cfg : Config) (alias name : Text)
    → IsOrdered cfg.servers
    → check_server_removal (some cfg) alias ≡ ok tt
    → holds (jumps_through alias) name (get name cfg.servers) ≡ false
no_jumps cfg alias name o h =
    sym (member-servers_using_proxy_jump cfg alias name o) ∙ rw (check-eq-ok cfg alias h).1

-- CheckServerRemoval accepts exactly a configured server that no other server jumps through.
pub check_server_removal_iff :
    (cfg : Config) (alias : Text)
    → IsOrdered cfg.servers
    → (check_server_removal (some cfg) alias ≡ ok tt) ↔ (
        (is_some (get alias cfg.servers) ≡ true)
        × ((name : Text) → holds (jumps_through alias) name (get name cfg.servers) ≡ false))
check_server_removal_iff cfg alias o =
    (λ h. ((check-eq-ok cfg alias h).0, λ name. no_jumps cfg alias name o h), back)
  where
    back :
        (is_some (get alias cfg.servers) ≡ true)
          × ((name : Text) → holds (jumps_through alias) name (get name cfg.servers) ≡ false)
        → check_server_removal (some cfg) alias ≡ ok tt
    back (e, free) =
        let unused =
          nil_of_no_member (servers_using_proxy_jump (some cfg) alias)
            (λ a. member-servers_using_proxy_jump cfg alias a o ∙ free a) in
        unfold check_server_removal refuse_users in rw (e, unused)

pub get-clear_projects :
    (alias name : Text) (m : Map (Option Project))
    → get name (clear_projects alias m) ≡ Option.map (clear_project alias) (get name m)
unfolding get clear_projects Option.map
get-clear_projects alias name [] = refl
get-clear_projects alias name ((k, p) ∷ m) = ground (arith, get-clear_projects alias name m)

clear_projects-Above :
    (alias k : Text) (m : Map (Option Project)) → Above k m → Above k (clear_projects alias m)
unfolding clear_projects
clear_projects-Above alias k [] h = tt
clear_projects-Above alias k ((j, p) ∷ m) h = (h.0, clear_projects-Above alias k m h.1)

clear_projects-IsOrdered :
    (alias : Text) (m : Map (Option Project)) → IsOrdered m → IsOrdered (clear_projects alias m)
unfolding clear_projects
clear_projects-IsOrdered alias [] o = tt
clear_projects-IsOrdered alias ((j, p) ∷ m) o =
    (clear_projects-Above alias j m o.0, clear_projects-IsOrdered alias m o.1)

-- The document after a removal that is accepted.
abbrev pub removed_from : Config → Text → Config
removed_from cfg alias = record cfg {
  servers = remove alias cfg.servers;
  projects = clear_projects alias cfg.projects;
  default = if cfg.default == alias then [] else cfg.default;
}

remove_server-eq-ok :
    (cfg : Config) (alias : Text) {cfg' : Config}
    → remove_server cfg alias ≡ ok cfg'
    → (check_server_removal (some cfg) alias ≡ ok tt) × (cfg' ≡ removed_from cfg alias)
unfolding remove_server
remove_server-eq-ok cfg alias h =
    let (u, checked, rest) = bind-eq-ok (check_server_removal (some cfg) alias) _ h in
    (checked, cc rest)

still_known :
    (alias a : Text) (m : Map (Option Server))
    → is_some (get a m) ≡ true
    → (alias == a) ≡ false
    → is_some (get a (remove alias m)) ≡ true
still_known alias a m h ne = rw get-remove (rw ne h)

cleared-eq-some :
    (alias : Text) (p : Project) (o : Option (Option Project))
    → Option.map (clear_project alias) o ≡ some (some p)
    → p.server ≢ []
    → (o ≡ some (some p)) × ((alias == p.server) ≡ false)
unfolding clear_project Option.map
cleared-eq-some alias p none e used = cc
cleared-eq-some alias p (some none) e used = cc
cleared-eq-some alias p (some (some q)) e used =
    ground (arith, used, text_eq_iff q.server alias, text_eq_iff alias p.server)

module _ (cfg : Config) (alias : Text) (closed : IsClosed cfg) where
  jumps_elsewhere :
      check_server_removal (some cfg) alias ≡ ok tt
      → (name : Text) (s : Server) → get name (remove alias cfg.servers) ≡ some (some s)
      → trim_space s.proxy_jump ≢ []
      → is_some (get (trim_space s.proxy_jump) (remove alias cfg.servers)) ≡ true
  jumps_elsewhere checked name s found used = elim (Bool-cases (alias == name)) [
    | inl same ↦ cc (rw (get-remove, same) at found)
    | inr other ↦
        let found' : get name cfg.servers ≡ some (some s) = rw (get-remove, other) at found in
        still_known alias (trim_space s.proxy_jump) cfg.servers (closed.jumps name s found' used) (
          ground (
            arith,
            rw found' at (no_jumps cfg alias name closed.servers_ordered checked),
            text_eq_iff name alias,
            text_eq_iff alias name,
            text_eq_iff alias (trim_space s.proxy_jump),
            text_eq_iff (trim_space s.proxy_jump) alias,
          ))
  ]

  projects_elsewhere :
      (name : Text) (p : Project)
      → get name (clear_projects alias cfg.projects) ≡ some (some p)
      → p.server ≢ []
      → is_some (get p.server (remove alias cfg.servers)) ≡ true
  projects_elsewhere name p found used =
      let (before, ne) =
        cleared-eq-some alias p (get name cfg.projects)
          (sym (get-clear_projects alias name cfg.projects) ∙ found) used in
      still_known alias p.server cfg.servers (closed.project_servers name p before used) ne

  default_elsewhere :
      (removed_from cfg alias).default ≢ []
      → is_some (get (removed_from cfg alias).default (remove alias cfg.servers)) ≡ true
  default_elsewhere used = elim (Bool-cases (cfg.default == alias)) [
    | inl same ↦ absurd ((rw same at used) refl)
    | inr other ↦ rw other (
        still_known alias cfg.default cfg.servers (closed.default_known (rw other at used))
          (ground (arith, text_eq_iff alias cfg.default, text_eq_iff cfg.default alias)))
  ]

  -- Removing a server from a document with no dangling reference leaves none.
  pub remove_server-IsClosed : {cfg' : Config} → remove_server cfg alias ≡ ok cfg' → IsClosed cfg'
  remove_server-IsClosed h =
      let (checked, e) = remove_server-eq-ok cfg alias h in
      rw e (record {
        servers_ordered = remove-IsOrdered alias cfg.servers closed.servers_ordered;
        projects_ordered = clear_projects-IsOrdered alias cfg.projects closed.projects_ordered;
        jumps = jumps_elsewhere checked;
        project_servers = projects_elsewhere;
        default_known = default_elsewhere;
      })
