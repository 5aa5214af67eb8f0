-- ===== src/Config/Document.antt =====
-- internal/config/load.go and update.go: decoding, checking and replacing the document. TOML is the
-- fields of `Format`, safety.ContainsCredentialMaterial the argument `secret`.
pub mod Update
use sshm.Prelude.{
  ℕ, ℤ, pos, ltb_ℤ, Bool, true, false, not, ◌&&◌, ◌||◌, List, [], ◌∷◌, Option, none, some,
  if◌then◌else◌, is_nil, any, every, nat_eq,
}
use sshm.Text.{Text, ◌==◌, codes}
unfoldable use sshm.Text.{text_eq, contains_rune, contains_any}
unfoldable use sshm.Text.Sort.{sort_strings}
use sshm.Time.{is_zero}
use sshm.Map.{Map}
unfoldable use sshm.Map.{get, keys}
use sshm.Result.{Result, ok, err, ◌>>=◌, ◌>>◌, fail_if}
use sshm.Config.{Server, Project, Config, current_version}
use sshm.Config.Bindings.{Sidecars}
unfoldable use sshm.Config.Bindings.{apply_cloud_bindings, apply_ui_preferences}

abbrev pub Bytes : Type 0
Bytes = List ℕ

-- What toml.Unmarshal leaves in a document from New, and what the encoder writes, with the errors of both.
pub record Format : Type 0 where
  pub unmarshal : Bytes → Option Config
  pub encode : Config → Bytes

-- os.ReadFile
pub data FileRead : Type 0 where
  missing unreadable : FileRead
  content : Bytes → FileRead

pub data ProjectError : Type 0 where
  invalid_name credential_name : ProjectError
  control_characters invalid_shell : Text → ProjectError
  credential_field : Text → Text → ProjectError

pub data ConfigError : Type 0 where
  parse_failed lock_failed read_failed changed_outside reread_failed io_failed : ConfigError
  unsupported_version : ℤ → ConfigError
  invalid_project : ProjectError → ConfigError
  callback_failed : Text → ConfigError

-- New
abbrev pub new_config : Config
new_config = record {
  version = pos current_version;
  default = [];
  ui = record { language = []; icons = []; color = [] };
  servers = [];
  projects = [];
}

-- The loop of decodeConfig over the servers of a document older than version 5.
unfoldable pub with_usage : Option Server → Option Server
with_usage none = none
with_usage (some s) =
    if is_zero s.last_used && not (is_zero s.last_seen)
    then some (record s { last_used = s.last_seen })
    else some s

unfoldable pub migrate_usage : Map (Option Server) → Map (Option Server)
unfolding with_usage
migrate_usage [] = []
migrate_usage ((alias, s) ∷ servers) = (alias, with_usage s) ∷ migrate_usage servers

unfoldable pub checked_version : Config → Result ConfigError Config
unfolding migrate_usage
checked_version cfg =
    if ltb_ℤ (pos current_version) cfg.version
    then err (unsupported_version cfg.version)
    else if ltb_ℤ cfg.version (pos 5)
    then ok (record cfg { servers = migrate_usage cfg.servers })
    else ok cfg

decoded : Option Config → Result ConfigError Config
unfolding checked_version
decoded none = err parse_failed
decoded (some cfg) = checked_version cfg

-- decodeConfig
unfoldable pub decode_config : Format → Bytes → Result ConfigError Config
unfolding decoded
decode_config t b = decoded (t.unmarshal b)

-- What Load finds beside the document.
pub record Beside : Type 0 where
  pub bindings : Option Bytes
  pub preferences : Option Bytes

-- Load
unfoldable pub load_config : Format → Sidecars → Beside → FileRead → Result ConfigError Config
unfolding decode_config apply_cloud_bindings apply_ui_preferences
load_config t f beside missing = ok (apply_ui_preferences f beside.preferences new_config)
load_config t f beside unreadable = err read_failed
load_config t f beside (content b) = do
  cfg ← decode_config t b
  ok (apply_cloud_bindings f beside.bindings (apply_ui_preferences f beside.preferences cfg))

-- validProjectShell
unfoldable pub valid_project_shell : Text → Bool
unfolding text_eq
valid_project_shell shell =
    is_nil shell
    || (shell == codes "auto")
    || (shell == codes "posix")
    || (shell == codes "powershell")
    || (shell == codes "cmd")

-- projectNamePattern: ^[a-z0-9][a-z0-9._-]*$
abbrev pub name_start : Text
name_start = codes "abcdefghijklmnopqrstuvwxyz0123456789"

unfoldable pub valid_project_name : Text → Bool
unfolding contains_rune
valid_project_name [] = false
valid_project_name (c ∷ s) =
    contains_rune name_start c
    && every (λ x. contains_rune name_start x || contains_rune (codes "._-") x) s

unfoldable pub check_fields :
    (Text → Bool) → Text → List (Text × Text) → Result ProjectError (Unit {0})
check_fields secret name [] = ok tt
check_fields secret name ((field, value) ∷ fields) =
    let rest = check_fields secret name fields in
    if secret value then err (credential_field name field) else rest

abbrev pub project_fields : Project → List (Text × Text)
project_fields p =
    (codes "server", p.server)
    ∷ (codes "local_root", p.local_root)
    ∷ (codes "remote_workspace", p.remote_workspace)
    ∷ (codes "remote_runs", p.remote_runs)
    ∷ (codes "artifact_path", p.artifact_path)
    ∷ (codes "local_artifact_dir", p.local_artifact_dir)
    ∷ (codes "build_command", p.build_command)
    ∷ (codes "verify_command", p.verify_command)
    ∷ []

-- One turn of the loop of ValidateProjects, with what the map holds under the name.
unfoldable pub validate_project :
    (Text → Bool) → Text → Option (Option Project) → Result ProjectError (Unit {0})
unfolding valid_project_shell check_fields contains_any
validate_project secret name none = ok tt
validate_project secret name (some none) = ok tt
validate_project secret name (some (some p)) = do
  _ ← fail_if (contains_any p.server (0 ∷ 13 ∷ 10 ∷ [])) (control_characters name)
  _ ← fail_if (not (valid_project_shell p.shell)) (invalid_shell name)
  check_fields secret name (project_fields p)

unfoldable pub validate_names :
    (Text → Bool) → Map (Option Project) → List Text → Result ProjectError (Unit {0})
unfolding valid_project_name validate_project get
validate_names secret projects [] = ok tt
validate_names secret projects (name ∷ names) = do
  _ ← fail_if (not (valid_project_name name)) invalid_name
  _ ← fail_if (secret name) credential_name
  _ ← validate_project secret name (get name projects)
  validate_names secret projects names

-- ValidateProjects
unfoldable pub validate_projects : (Text → Bool) → Config → Result ProjectError (Unit {0})
unfolding validate_names sort_strings keys
validate_projects secret cfg = validate_names secret cfg.projects (sort_strings (keys cfg.projects))

-- What one write of the document meets: the system calls on the temporary file, the second read of the
-- document, and the rename.
pub record Writing : Type 0 where
  pub staged : Bool
  pub reread : FileRead
  pub renamed : Bool

abbrev pub as_config_error : Result ProjectError (Unit {0}) → Result ConfigError (Unit {0})
as_config_error (err e) = err (invalid_project e)
as_config_error (ok u) = ok u

-- The switch of saveUnlockedIfUnchanged on the second read, under the file that was read first.
abbrev pub same_bytes : Bytes → Bytes → Bool
same_bytes a b = a == b

unfoldable pub unchanged : FileRead → Option FileRead → Result ConfigError (Unit {0})
unfolding text_eq
unchanged now none = ok tt
unchanged (content b) (some (content b')) = if same_bytes b b' then ok tt else err changed_outside
unchanged (content b) (some _) = err changed_outside
unchanged missing (some (content b)) = err changed_outside
unchanged missing (some _) = ok tt
unchanged unreadable (some _) = err reread_failed

abbrev pub at_current : Config → Config
at_current cfg =
    if ltb_ℤ cfg.version (pos current_version)
    then record cfg { version = pos current_version }
    else cfg

-- saveUnlockedIfUnchanged: the file that stands at the path afterwards, and the result.
save_checks : (Text → Bool) → Writing → Config → Option FileRead → Result ConfigError (Unit {0})
unfolding validate_projects unchanged
save_checks secret w cfg expected = do
  _ ← as_config_error (validate_projects secret cfg)
  _ ← fail_if (not w.staged) io_failed
  _ ← unchanged w.reread expected
  fail_if (not w.renamed) io_failed

abbrev pub replaced :
    FileRead → Bytes → Result ConfigError (Unit {0}) → FileRead × Result ConfigError (Unit {0})
replaced now b (err e) = (now, err e)
replaced now b (ok u) = (content b, ok u)

unfoldable pub save_if_unchanged :
    (Text → Bool)
    → Format
    → Writing
    → Config
    → Option FileRead
    → FileRead × Result ConfigError (Unit {0})
unfolding save_checks
save_if_unchanged secret t w cfg expected =
    replaced w.reread (t.encode (at_current cfg)) (save_checks secret w cfg expected)

-- What the callback of an update makes of the document, from the document and the bytes that were read.
abbrev pub Change : Type 0
Change = Config → Bytes → Result Text Config

abbrev pub source_of : FileRead → Bytes
source_of (content b) = b
source_of _ = []

abbrev pub start_config : Format → FileRead → Result ConfigError Config
start_config t missing = ok new_config
start_config t unreadable = err read_failed
start_config t (content b) = decode_config t b

abbrev pub run_change : Change → Config → Bytes → Result ConfigError Config
run_change change cfg b = elim (change cfg b) [ err e ↦ err (callback_failed e) | ok new ↦ ok new ]

save_changed :
    (Text → Bool)
    → Format
    → Writing
    → FileRead
    → Result ConfigError Config
    → FileRead × Result ConfigError (Unit {0})
unfolding save_if_unchanged
save_changed secret t w first (err e) = (w.reread, err e)
save_changed secret t w first (ok cfg) = save_if_unchanged secret t w cfg (some first)

-- UpdateWithSource, with the lock taken. `w.reread` is what other programs make of the file meanwhile.
unfoldable pub update_config :
    (Text → Bool)
    → Format
    → Sidecars
    → Option Bytes
    → Change
    → Writing
    → FileRead
    → FileRead × Result ConfigError (Unit {0})
unfolding save_changed decode_config apply_cloud_bindings
update_config secret t f bindings change w first = save_changed secret t w first (do
  cfg ← start_config t first
  run_change change (apply_cloud_bindings f bindings cfg) (source_of first))
