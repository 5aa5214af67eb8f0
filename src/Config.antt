-- ===== src/Config.antt =====
-- internal/config/config.go: the persistent configuration document.
pub mod References
pub mod Bindings
pub mod Document
pub mod Search
pub mod Metadata
pub mod Activity
use sshm.Prelude.{ℕ, ℤ, ℤ-discrete, Bool, List, Option, Discrete, ℕ_discrete, []}
use sshm.Text.{Text, codes}
use sshm.Map.{Map}
use sshm.Time.{Time}
use sshm.Inventory.{Snapshot}
unfoldable use sshm.Inventory.{Snapshot-discrete}

abbrev pub current_version : ℕ
current_version = 5

pub record Server : Type 0 where
  pub cloud_entry : Text
  pub cloud_vault : Text
  pub hardware : Option Snapshot
  pub label : Text
  pub description : Text
  pub platform : Text
  pub host : Text
  pub port : ℤ
  pub user : Text
  pub auth : Text
  pub key_path : Text
  pub tags : Option (List Text)
  pub group : Text
  pub notes : Text
  pub init_state : Text
  pub created_at : Time
  pub identity_changed_at : Time
  pub last_used : Time
  pub last_checked : Time
  pub last_seen : Time
  pub sshm_status : Text
  pub sshm_version : Text
  pub sshm_checked_at : Time
  pub last_ssh_checked : Time
  pub last_ssh_error : Text
  pub last_status : Text
  pub cleanup_protected : Bool
  pub proxy_jump : Text
  pub proxy_command : Text
  pub proxy : Text
  pub forwards : Option (List Text)

unfoldable pub Server-discrete : Discrete Server
Server-discrete = hlevel (ℕ_discrete, ℤ-discrete, Snapshot-discrete)

pub record Project : Type 0 where
  pub server : Text
  pub local_root : Text
  pub remote_workspace : Text
  pub remote_runs : Text
  pub artifact_path : Text
  pub local_artifact_dir : Text
  pub shell : Text
  pub build_command : Text
  pub verify_command : Text

pub record UiConfig : Type 0 where
  pub language : Text
  pub icons : Text
  pub color : Text

-- The values of both maps are pointers, which may be nil.
pub record Config : Type 0 where
  pub version : ℤ
  pub default : Text
  pub ui : UiConfig
  pub servers : Map (Option Server)
  pub projects : Map (Option Project)
