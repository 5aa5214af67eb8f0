-- ===== src/Config/Activity.antt =====
-- internal/config/activity.go: what probes and logins leave on a server. `cfg` is the document that
-- the transaction of Update loads and saves.
pub mod Laws
use sshm.Prelude.{
  ℤ, pos, Bool, true, false, not, ◌&&◌, ◌||◌, List, [], ◌∷◌, Option, none, some, if◌then◌else◌,
  is_nil,
}
use sshm.Text.{Text, ◌==◌, codes}
unfoldable use sshm.Text.{text_eq}
use sshm.Map.{Map}
unfoldable use sshm.Map.{get, put}
use sshm.Time.{Time, zero_time, is_zero, after, before}
use sshm.Config.{Server, Config}
use sshm.Prelude.{eq_ℤ}

abbrev pub status_online : Text
status_online = codes "online"

abbrev pub status_offline : Text
status_offline = codes "offline"

-- ClearServerActivity; `now` is what time.Now returns.
unfoldable pub clear_server_activity : Time → Option Server → Time → Option Server
clear_server_activity now none at = none
clear_server_activity now (some server) at = some (record server {
  identity_changed_at = if is_zero at then now else at;
  hardware = none;
  last_used = zero_time;
  last_seen = zero_time;
  last_checked = zero_time;
  last_status = [];
  last_ssh_checked = zero_time;
  last_ssh_error = [];
  sshm_status = [];
  sshm_version = [];
  sshm_checked_at = zero_time;
})

pub record ProbeObservation : Type 0 where
  pub host : Text
  pub port : ℤ
  pub user : Text
  pub reachable : Bool
  pub observed_at : Time

-- NewProbeObservation
unfoldable pub new_probe_observation : Option Server → Bool → Time → ProbeObservation
new_probe_observation none reachable at = record {
  host = [];
  port = pos 0;
  user = [];
  reachable = reachable;
  observed_at = at;
}
new_probe_observation (some server) reachable at = record {
  host = server.host;
  port = server.port;
  user = server.user;
  reachable = reachable;
  observed_at = at;
}

-- server.Host != host || server.Port != port || server.User != user, negated
unfoldable pub same_connection : Server → Text → ℤ → Text → Bool
same_connection server host port user =
    server.host == host && eq_ℤ server.port port && server.user == user

-- t.IsZero() || at.After(t), and t.IsZero() || !at.Before(t)
abbrev pub is_news : Time → Time → Bool
is_news at t = is_zero t || after at t

abbrev pub is_current : Time → Time → Bool
is_current at t = is_zero t || not (before at t)

-- The changes of RecordSSHUse.
unfoldable pub use_server : Time → Server → Server
use_server at server =
    let ssh = is_current at server.last_ssh_checked in
    let checked = is_current at server.last_checked in
    record server {
      last_ssh_checked = if ssh then at else server.last_ssh_checked;
      last_ssh_error = if ssh then [] else server.last_ssh_error;
      last_used = if is_news at server.last_used then at else server.last_used;
      last_seen = if is_news at server.last_seen then at else server.last_seen;
      last_checked = if checked then at else server.last_checked;
      last_status = if checked then status_online else server.last_status;
    }

unfoldable pub is_expected : Option Server → Server → Bool
unfolding same_connection
is_expected none server = true
is_expected (some e) server = same_connection server e.host e.port e.user

-- cfg.Servers[alias], changed in place if it is there.
abbrev pub change_server : (Server → Server) → Text → Option (Option Server) → Config → Config
change_server f alias none cfg = cfg
change_server f alias (some none) cfg = cfg
change_server f alias (some (some server)) cfg = record cfg {
  servers = put alias (some (f server)) cfg.servers;
}

-- RecordSSHUse
unfoldable pub record_ssh_use : Text → Option Server → Time → Config → Config
unfolding use_server is_expected
record_ssh_use alias expected at cfg =
    if is_nil alias
    then cfg
    else change_server (λ s. if is_expected expected s then use_server at s else s) alias
        (get alias cfg.servers) cfg

-- One turn of the loop of RecordProbes, on the server of the alias.
unfoldable pub probe_server : Time → ProbeObservation → Server → Server
unfolding same_connection
probe_server now o server =
    let at = if is_zero o.observed_at then now else o.observed_at in
    let mine = same_connection server o.host o.port o.user in
    let checked = mine && is_current at server.last_checked in
    record server {
      last_checked = if checked then at else server.last_checked;
      last_status =
          if checked
          then (if o.reachable then status_online else status_offline)
          else server.last_status;
      last_seen =
          if mine && o.reachable && is_news at server.last_seen then at else server.last_seen;
    }

-- RecordProbes
unfoldable pub record_probes : Time → Map ProbeObservation → Config → Config
unfolding probe_server
record_probes now [] cfg = cfg
record_probes now ((alias, o) ∷ results) cfg =
    record_probes now results (change_server (probe_server now o) alias (get alias cfg.servers) cfg)

-- The changes of RecordSSHCheck.
unfoldable pub check_server : Time → Text → Option Server → Server → Server
unfolding same_connection
check_server at category none s = s
check_server at category (some e) s =
    if same_connection s e.host e.port e.user && is_current at s.last_ssh_checked
    then record s { last_ssh_checked = at; last_ssh_error = category }
    else s

-- RecordSSHCheck
unfoldable pub record_ssh_check : Text → Option Server → Text → Time → Config → Config
unfolding check_server
record_ssh_check alias expected category at cfg =
    if is_nil alias
    then cfg
    else change_server (check_server at category expected) alias (get alias cfg.servers) cfg
