-- ===== src/Config/References.antt =====
-- internal/config/config.go and remove.go: what refers to a server, and its removal.
pub mod Removal
pub mod Protection
use sshm.Prelude.{
  Bool, true, false, not, ◌&&◌, List, [], ◌∷◌, ◌++◌, Option, none, some, ◌≡◌, if◌then◌else◌, is_nil,
}
use sshm.Text.{Text, ◌==◌, codes}
unfoldable use sshm.Text.{trim_space, join, text_eq}
unfoldable use sshm.Text.Sort.{sort_strings}
unfoldable use sshm.Map.{get, put, remove}
use sshm.Map.{Map, is_some}
unfoldable use sshm.Map.Keys.{keys_where}
use sshm.Result.{Result, ok, err, ◌>>=◌}
use sshm.Config.{Server, Project, Config}

-- project != nil && project.Server == alias
abbrev pub project_uses : Text → Text → Option Project → Bool
project_uses alias name none = false
project_uses alias name (some project) = project.server == alias

-- name != alias && server != nil && strings.TrimSpace(server.ProxyJump) == alias
abbrev pub jumps_through : Text → Text → Option Server → Bool
jumps_through alias name none = false
jumps_through alias name (some server) =
    not (name == alias) && trim_space server.proxy_jump == alias

-- ProjectsUsingServer
unfoldable pub projects_using_server : Option Config → Text → List Text
projects_using_server none alias = []
projects_using_server (some cfg) alias = sort_strings (keys_where (project_uses alias) cfg.projects)

-- ServersUsingProxyJump
unfoldable pub servers_using_proxy_jump : Option Config → Text → List Text
servers_using_proxy_jump none alias = []
servers_using_proxy_jump (some cfg) alias =
    sort_strings (keys_where (jumps_through alias) cfg.servers)

-- if len(names) > 0 { reasons = append(reasons, label + strings.Join(names, ", ")) }
used_by : Text → List Text → List Text
used_by label [] = []
used_by label (name ∷ names) = (label ++ join (name ∷ names) (codes ", ")) ∷ []

reasons_for : Config → Text → Option (Option Server) → List Text
reasons_for cfg alias none = []
reasons_for cfg alias (some none) = []
reasons_for cfg alias (some (some server)) =
    (if server.cleanup_protected then codes "manually protected" ∷ [] else [])
    ++ ((if cfg.default == alias then codes "default server" ∷ [] else [])
        ++ (used_by (codes "used by projects: ") (projects_using_server (some cfg) alias)
            ++ used_by (codes "proxy jump for: ") (servers_using_proxy_jump (some cfg) alias)))

-- CleanupProtectionReasons
unfoldable pub cleanup_protection_reasons : Option Config → Text → List Text
unfolding reasons_for used_by
cleanup_protection_reasons none alias = []
cleanup_protection_reasons (some cfg) alias = reasons_for cfg alias (get alias cfg.servers)

-- ServerRemovalError
pub data RemovalError : Type 0 where
  not_found : Text → RemovalError
  in_use : Text → List Text → RemovalError

-- CheckServerRemoval
refuse_users : Text → List Text → Result RemovalError (Unit {0})
refuse_users alias [] = ok tt
refuse_users alias (name ∷ names) = err (in_use alias (name ∷ names))

unfoldable pub check_server_removal : Option Config → Text → Result RemovalError (Unit {0})
unfolding refuse_users
check_server_removal none alias = err (not_found alias)
check_server_removal (some cfg) alias =
    if is_some (get alias cfg.servers)
    then refuse_users alias (servers_using_proxy_jump (some cfg) alias)
    else err (not_found alias)

-- The loop over the projects of RemoveServer.
unfoldable pub clear_project : Text → Option Project → Option Project
clear_project alias none = none
clear_project alias (some project) =
    if project.server == alias then some (record project { server = [] }) else some project

unfoldable pub clear_projects : Text → Map (Option Project) → Map (Option Project)
unfolding clear_project
clear_projects alias [] = []
clear_projects alias ((name, project) ∷ m) =
    (name, clear_project alias project) ∷ clear_projects alias m

-- RemoveServer. On an error the document is left as it was.
unfoldable pub remove_server : Config → Text → Result RemovalError Config
remove_server cfg alias = do
  _ ← check_server_removal (some cfg) alias
  ok (record cfg {
    servers = remove alias cfg.servers;
    projects = clear_projects alias cfg.projects;
    default = if cfg.default == alias then [] else cfg.default;
  })
