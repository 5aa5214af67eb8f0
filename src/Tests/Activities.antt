-- ===== src/Tests/Activities.antt =====
-- Two probes and a login of one server.
use sshm.Prelude.{pos, ◌≤ℤ◌, true, false, [], ◌∷◌, none, some, ◌≡◌, refl, arith}
use sshm.Text.{codes, text_eq}
use sshm.Map.{get}
use sshm.Config.{Server}
use sshm.Config.Activity.{
  ProbeObservation, same_connection, probe_server, record_probes, record_ssh_use,
  new_probe_observation, is_expected, status_offline,
}
use sshm.Config.Activity.Laws.{
  IsProbed, record_probes-IsProbed, probe_server_latest, record_ssh_use_lem,
}
use sshm.Tests.Data.{gateway, attic}

up : ProbeObservation
unfolding new_probe_observation
up = new_probe_observation (some gateway) true (pos 1001)

down : ProbeObservation
unfolding new_probe_observation
down = new_probe_observation (some gateway) false (pos 2001)

probe_server_latest_example :
    (probe_server (pos 5) up (probe_server (pos 5) down gateway)
      ≡ probe_server (pos 5) down (probe_server (pos 5) up gateway))
    × ((probe_server (pos 5) down (probe_server (pos 5) up gateway)).last_checked ≡ pos 2001)
    × ((probe_server (pos 5) down (probe_server (pos 5) up gateway)).last_status ≡ status_offline)
unfolding up down new_probe_observation same_connection text_eq
probe_server_latest_example =
    probe_server_latest (pos 5) up down gateway 1000 2000 refl refl (omega arith) refl (omega arith)

-- The later probe decides the status, though it arrives first.
late : (probe_server (pos 5) up (probe_server (pos 5) down gateway)).last_status ≡ status_offline
unfolding up down new_probe_observation probe_server same_connection text_eq
late = refl

gateway_entry : get (codes "gw") attic.servers ≡ some (some gateway)
unfolding get text_eq
gateway_entry = refl

record_probes-IsProbed_example :
    (s' : Server) × (get (codes "gw") (record_probes (pos 5) ((codes "gw", up) ∷ []) attic).servers
      ≡ some (some s'))
    × IsProbed gateway s'
unfolding up new_probe_observation
record_probes-IsProbed_example =
    record_probes-IsProbed (pos 5) ((codes "gw", up) ∷ []) attic (codes "gw") gateway (omega arith)
      (omega arith, tt) gateway_entry

record_ssh_use_lem_example :
    (s' : Server) × (get (codes "gw") (record_ssh_use (codes "gw") none (pos 7) attic).servers
      ≡ some (some s'))
    × (is_expected none gateway ≡ false → s' ≡ gateway)
    × (is_expected none gateway ≡ true
        → (pos 7 ≤ℤ s'.last_used)
          × (pos 7 ≤ℤ s'.last_seen)
          × (pos 7 ≤ℤ s'.last_checked)
          × (pos 7 ≤ℤ s'.last_ssh_checked))
record_ssh_use_lem_example =
    record_ssh_use_lem (codes "gw") none (pos 7) attic gateway refl gateway_entry
