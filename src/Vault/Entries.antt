-- ===== src/Vault/Entries.antt =====
-- internal/cloudsync/data.go and merge_additions.go: single entries.
pub mod Union
use sshm.Prelude.{
  ℕ, ℤ, pos, Bool, true, false, not, ◌&&◌, List, [], ◌∷◌, ◌++◌, Option, none, some, if◌then◌else◌,
  elements, ℤ-discrete,
}
use sshm.Text.{Text, ◌==◌}
unfoldable use sshm.Text.{trim_space, to_lower, text_eq}
unfoldable use sshm.Text.Sort.{sort_strings}
use sshm.Map.{Map}
unfoldable use sshm.Map.{get, put, keys}
unfoldable use sshm.Map.Keys.{set_of}
use sshm.Time.{zero_time}
use sshm.Config.{Server}
unfoldable use sshm.Config.{Server-discrete}
use sshm.Vault.{Entry, Source, Env, Digested, connection, names, source, same_entry}
unfoldable use sshm.Vault.{deep_equal, Source-discrete, entry-discrete}
use sshm.Prelude.{eq_ℤ}

-- cleanServer
unfoldable pub clean_server : Env → Server → Server
clean_server env s = record s {
  cloud_entry = [];
  cloud_vault = [];
  hardware = none;
  key_path = [];
  last_used = zero_time;
  last_seen = zero_time;
  last_checked = zero_time;
  last_status = [];
  last_ssh_checked = zero_time;
  last_ssh_error = [];
  platform = [];
  sshm_status = [];
  sshm_version = [];
  sshm_checked_at = zero_time;
  identity_changed_at = zero_time;
  created_at = zero_time;
  port = if eq_ℤ s.port (pos 0) then pos 22 else s.port;
  host = to_lower env.lower (trim_space s.host);
}

-- EntryID
unfoldable pub entry_id : Env → Server → Text
entry_id env s =
    env.digest
      (connection s.host s.port s.user s.auth s.proxy_jump s.proxy_command s.proxy s.forwards)

-- union
unfoldable pub union : Option (List Text) → Option (List Text) → Option (List Text)
union a b = some (sort_strings (keys {0} (set_of true (elements a ++ elements b))))

-- compatibleEntries
unfoldable pub compatible_entries : Env → Option Entry → Option Entry → Bool
compatible_entries env (some a) (some b) =
    a.id == b.id
    && deep_equal Server-discrete (clean_server env a.server) (clean_server env b.server)
compatible_entries env _ _ = false

abbrev pub entries_of : Option (Map Source) → Map Source
entries_of none = []
entries_of (some m) = m

-- for k, v := range m { out[k] = v }
unfoldable pub put_sources : Map Source → Map Source → Map Source
put_sources [] out = out
put_sources ((k, v) ∷ m) out = put_sources m (put k v out)

-- if existing, ok := out.Sources[k]; ok && !reflect.DeepEqual(existing, v)
differs : Option Source → Source → Bool
differs none v = false
differs (some existing) v = not (deep_equal Source-discrete existing v)

-- A source whose key holds another one moves to a key made of both.
unfoldable pub source_key : Env → Text → Source → Map Source → Text
unfolding differs
source_key env k v out =
    if differs (get k out) v then env.digest (names k (env.digest (source v))) else k

add_sources : Env → Map Source → Map Source → Map Source
unfolding source_key
add_sources env [] out = out
add_sources env ((k, v) ∷ m) out = add_sources env m (put (source_key env k v out) v out)

-- mergeAdditions
unfoldable pub merge_additions : Env → Entry → Entry → Entry
unfolding add_sources put_sources union
merge_additions env a b = record b {
  aliases = union a.aliases b.aliases;
  credential_ids = union a.credential_ids b.credential_ids;
  sources = some (add_sources env (entries_of a.sources) (put_sources (entries_of b.sources) []));
}

-- The case of Merge for one connection that both sides added.
unfoldable pub merge_added : Entry → Entry → Entry
unfolding put_sources union
merge_added l r = record r {
  aliases = union l.aliases r.aliases;
  credential_ids = union l.credential_ids r.credential_ids;
  sources = some (put_sources (entries_of l.sources) (put_sources (entries_of r.sources) []));
}
