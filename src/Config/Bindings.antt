-- ===== src/Config/Bindings.antt =====
-- internal/config/cloud_bindings.go and ui_preferences.go: what stands in files beside the document.
-- The files' JSON is the fields of `Sidecars`, SHA-256 its `fingerprint`.
pub mod Restored
use sshm.Prelude.{
  ℕ, ℤ, Bool, true, false, not, ◌||◌, List, [], ◌∷◌, Option, none, some, if◌then◌else◌, is_nil, ltb,
  leb, length,
}
use sshm.Text.{Text, ◌==◌}
unfoldable use sshm.Text.{text_eq}
use sshm.Map.{Map}
unfoldable use sshm.Map.{get, put}
use sshm.Config.{Server, UiConfig, Config}

abbrev pub Bytes : Type 0
Bytes = List ℕ

pub record CloudBinding : Type 0 where
  pub fingerprint : Text
  pub entry : Text
  pub vault : Text

-- What bindingFingerprint writes as JSON and hashes.
pub record Route : Type 0 where
  pub host : Text
  pub user : Text
  pub auth : Text
  pub key : Text
  pub jump : Text
  pub command : Text
  pub proxy : Text
  pub port : ℤ
  pub forwards : Option (List Text)

pub record Sidecars : Type 0 where
  pub fingerprint : Route → Text
  pub encode_bindings : Map CloudBinding → Bytes
  pub decode_bindings : Bytes → Option (Map CloudBinding)
  pub decode_preferences : Bytes → Option UiConfig

abbrev pub route_of : Server → Route
route_of s = record {
  host = s.host;
  user = s.user;
  auth = s.auth;
  key = s.key_path;
  jump = s.proxy_jump;
  command = s.proxy_command;
  proxy = s.proxy;
  port = s.port;
  forwards = s.forwards;
}

-- bindingFingerprint
abbrev pub binding_fingerprint : Sidecars → Server → Text
binding_fingerprint f s = f.fingerprint (route_of s)

-- The loop of SaveCloudBindings.
unfoldable pub cloud_bindings : Sidecars → Map (Option Server) → Map CloudBinding
unfolding put
cloud_bindings f [] = []
cloud_bindings f ((alias, none) ∷ servers) = cloud_bindings f servers
cloud_bindings f ((alias, some s) ∷ servers) =
    let entries = cloud_bindings f servers in
    if is_nil s.cloud_vault
    then entries
    else put alias
        (record {
          fingerprint = binding_fingerprint f s;
          entry = s.cloud_entry;
          vault = s.cloud_vault;
        })
        entries

-- s.CloudVault != "" || s.CloudEntry != "" || entry.Vault == "" || bindingFingerprint(s) != entry.Fingerprint
unfoldable pub is_kept : Sidecars → CloudBinding → Server → Bool
unfolding text_eq
is_kept f b s =
    not (is_nil s.cloud_vault)
    || not (is_nil s.cloud_entry)
    || is_nil b.vault
    || not (binding_fingerprint f s == b.fingerprint)

abbrev pub bound : CloudBinding → Server → Server
bound b s = record s { cloud_entry = b.entry; cloud_vault = b.vault }

-- One turn of the loop of applyCloudBindings, with what the alias stands for.
bind_found :
    Sidecars
    → Text
    → CloudBinding
    → Map (Option Server)
    → Option (Option Server)
    → Map (Option Server)
unfolding is_kept put
bind_found f alias b servers none = servers
bind_found f alias b servers (some none) = servers
bind_found f alias b servers (some (some s)) =
    if is_kept f b s then servers else put alias (some (bound b s)) servers

unfoldable pub bind_all : Sidecars → Map CloudBinding → Map (Option Server) → Map (Option Server)
unfolding bind_found get
bind_all f [] servers = servers
bind_all f ((alias, b) ∷ entries) servers =
    bind_all f entries (bind_found f alias b servers (get alias servers))

with_entries : Sidecars → Config → Option (Map CloudBinding) → Config
unfolding bind_all
with_entries f cfg none = cfg
with_entries f cfg (some entries) = record cfg { servers = bind_all f entries cfg.servers }

-- applyCloudBindings, with the bytes of the file, if it can be read.
unfoldable pub apply_cloud_bindings : Sidecars → Option Bytes → Config → Config
unfolding with_entries
apply_cloud_bindings f none cfg = cfg
apply_cloud_bindings f (some b) cfg =
    if ltb 4_194_304 (length b) then cfg else with_entries f cfg (f.decode_bindings b)

with_preferences : Config → Option UiConfig → Config
with_preferences cfg none = cfg
with_preferences cfg (some prefs) = record cfg { ui = prefs }

-- applyUIPreferences
unfoldable pub apply_ui_preferences : Sidecars → Option Bytes → Config → Config
unfolding with_preferences
apply_ui_preferences f none cfg = cfg
apply_ui_preferences f (some b) cfg =
    if leb 8192 (length b) then cfg else with_preferences cfg (f.decode_preferences b)
