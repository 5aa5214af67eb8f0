-- ===== src/Tests/Data.antt =====
-- Test data: a document with two servers, a project and a default, and its closure.
use sshm.Prelude.{
  pos, Bool, true, false, [], ◌∷◌, Option, none, some, ◌≡◌, ◌≢◌, refl, arith, is_nil, if◌then◌else◌,
  String,
}
use sshm.Text.{Text, codes, text_eq}
unfoldable use sshm.Text.{trim_space}
use sshm.Map.{Map, get, is_some}
use sshm.Map.Laws.{IsOrdered}
use sshm.Text.Order.{text_ltb}
use sshm.Config.{Server, Project, Config}
use sshm.Config.References.Removal.{IsClosed}

abbrev every_entry {ℓ} : {V : Type ℓ} → (V → Bool) → Map V → Bool
every_entry p [] = true
every_entry p ((k, v) ∷ m) = if p v then every_entry p m else false

get-every_entry {ℓ} :
    {V : Type ℓ} (p : V → Bool) (m : Map V) (k : Text) (v : V)
    → every_entry p m ≡ true
    → get k m ≡ some v
    → p v ≡ true
unfolding get
get-every_entry p [] k v h e = cc
get-every_entry p ((j, w) ∷ m) k v h e = ground (arith, get-every_entry p m k v)

abbrev pub zero_server : Server
zero_server = record {
  cloud_entry = [];
  cloud_vault = [];
  hardware = none;
  label = [];
  description = [];
  platform = [];
  host = [];
  port = pos 0;
  user = [];
  auth = [];
  key_path = [];
  tags = none;
  group = [];
  notes = [];
  init_state = [];
  created_at = pos 0;
  identity_changed_at = pos 0;
  last_used = pos 0;
  last_checked = pos 0;
  last_seen = pos 0;
  sshm_status = [];
  sshm_version = [];
  sshm_checked_at = pos 0;
  last_ssh_checked = pos 0;
  last_ssh_error = [];
  last_status = [];
  cleanup_protected = false;
  proxy_jump = [];
  proxy_command = [];
  proxy = [];
  forwards = none;
}

abbrev pub server_at : String → Server
server_at host = record zero_server {
  host = codes host;
  port = pos 22;
  user = codes "root";
  auth = codes "agent";
}

abbrev pub gateway : Server
gateway = server_at "gw.example"

abbrev pub web : Server
web = record (server_at "web.example") { proxy_jump = codes " gw " }

abbrev pub site : Project
site = record {
  server = codes "web";
  local_root = [];
  remote_workspace = codes "/srv";
  remote_runs = [];
  artifact_path = [];
  local_artifact_dir = [];
  shell = [];
  build_command = [];
  verify_command = [];
}

-- "web" jumps through "gw", and is the default and the server of a project.
abbrev pub office : Config
office = record {
  version = pos 5;
  default = codes "web";
  ui = record { language = []; icons = []; color = [] };
  servers = (codes "gw", some gateway) ∷ (codes "web", some web) ∷ [];
  projects = (codes "site", some site) ∷ [];
}

abbrev jump_known : Config → Option Server → Bool
jump_known cfg none = true
jump_known cfg (some s) =
    if is_nil (trim_space s.proxy_jump)
    then true
    else is_some (get (trim_space s.proxy_jump) cfg.servers)

abbrev project_known : Config → Option Project → Bool
project_known cfg none = true
project_known cfg (some p) = if is_nil p.server then true else is_some (get p.server cfg.servers)

of_test : (t : Text) (b : Bool) → (if is_nil t then true else b) ≡ true → t ≢ [] → b ≡ true
of_test [] b h ne = absurd (ne refl)
of_test (c ∷ t) b h ne = h

-- A document on which the tests pass is closed.
pub IsClosed-of_tests :
    (cfg : Config)
    → IsOrdered cfg.servers
    → IsOrdered cfg.projects
    → every_entry (jump_known cfg) cfg.servers ≡ true
    → every_entry (project_known cfg) cfg.projects ≡ true
    → (if is_nil cfg.default then true else is_some (get cfg.default cfg.servers)) ≡ true
    → IsClosed cfg
IsClosed-of_tests cfg os op j p d = record {
  servers_ordered = os;
  projects_ordered = op;
  jumps = λ name s found used.
      of_test (trim_space s.proxy_jump) _
        (get-every_entry (jump_known cfg) cfg.servers name (some s) j found) used;
  project_servers = λ name q found used.
      of_test q.server _ (get-every_entry (project_known cfg) cfg.projects name (some q) p found)
        used;
  default_known = of_test cfg.default _ d;
}

pub office-IsClosed : IsClosed office
unfolding trim_space get text_eq text_ltb
office-IsClosed = IsClosed-of_tests office ((refl, tt), (tt, tt)) (tt, tt) refl refl refl

-- A server that was last used on the second day of the calendar of package time.
abbrev pub old : Server
old = record (server_at "old.example") { created_at = pos 1; last_used = pos 86_400_000_000_000 }

abbrev pub attic : Config
attic = record office {
  servers = (codes "gw", some gateway) ∷ (codes "old", some old) ∷ (codes "web", some web) ∷ [];
}

pub attic-IsClosed : IsClosed attic
unfolding trim_space get text_eq text_ltb
attic-IsClosed =
    IsClosed-of_tests attic ((refl, (refl, tt)), ((refl, tt), (tt, tt))) (tt, tt) refl refl refl
