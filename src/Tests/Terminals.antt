-- ===== src/Tests/Terminals.antt =====
-- A connection on which a request is repeated, and a session that is asked to connect twice.
use sshm.Prelude.{ℕ, pos, ◌≤◌, true, List, [], ◌∷◌, none, some, ◌≡◌, refl, arith, length}
use sshm.Text.{codes, text_eq, len}
use sshm.Map.{get, put, remove}
use sshm.Shell.{
  ShellOpen, ShellPayload, ShellFrame, Sealing, verify_shell, is_admissible, message, signed,
  open_frame, is_next, nonce, aad, big_endian,
}
use sshm.Agent.{
  Host, Event, opened, framed, closed_by, attached, new_relay, run, step, open_session,
  frame_session, close_session, forget, is_busy, new_session, object, change_object,
  connect_session, queue_input, attach, take_input,
}
use sshm.Agent.Table.{AreOnce, run-AreOnce}
use sshm.Agent.Replay.{AreDifferent, IsSteady, run-AreDifferent}

abbrev connect : ShellPayload
connect = record {
  diagnostics = none;
  type = codes "connect";
  content = [];
  target = [];
  credential = [];
  cols = pos 80;
  rows = pos 24;
}

-- Every payload is a connect here, and any signature is good.
abbrev sealing : Sealing
sealing = record {
  decimal = λ n. codes "7";
  decode = λ s. some s;
  encode = λ b. b;
  ed25519_verify = λ public text sig. true;
  derive = λ master label. label;
  write_payload = λ p. 1 ∷ [];
  read_payload = λ b. some connect;
  gcm_seal = λ key n plain a. plain;
  gcm_open = λ key n b a. some b;
}

abbrev host : Host
host = record {
  sealing = sealing;
  public = codes "pub";
  master = [];
  user = codes "ann";
  device = codes "device-1";
  epoch = codes "epoch-1";
}

abbrev request : ShellOpen
request = record {
  lifetime = codes "connection";
  mode = codes "ssh";
  type = codes "open";
  device = codes "device-1";
  epoch = codes "epoch-1";
  session = codes "session-1";
  expires = pos 2000;
  signature = codes "sig";
}

abbrev frame : ℕ → ShellFrame
frame n = record { type = codes "frame"; session = codes "session-1"; seq = n; ciphertext = 1 ∷ [] }

-- The request comes again while the session lives, after it was closed, and after it expired.
abbrev events : List Event
events =
    opened request (pos 1000) (pos 1000)
    ∷ opened request (pos 1001) (pos 1001)
    ∷ framed (frame 0)
    ∷ attached 0
    ∷ framed (frame 1)
    ∷ opened request (pos 1002) (pos 1002)
    ∷ opened request (pos 2000) (pos 2000)
    ∷ []

computing : Unit {0}
unfolding text_eq len get put remove verify_shell is_admissible message signed open_frame is_next
    nonce aad big_endian new_relay run step open_session frame_session close_session forget is_busy
    new_session object change_object connect_session queue_input attach take_input
computing = tt

admitted_once_test : (run host events new_relay).admitted ≡ request ∷ []
unfolding computing
admitted_once_test = refl

-- The second connect has closed the session.
dialed_once_test :
    ((run host events new_relay).dials ≡ 0 ∷ []) × ((run host events new_relay).sessions ≡ [])
unfolding computing
dialed_once_test = (refl, refl)

-- Where the clock passes the expiry between the check and the purge, the request is admitted again.
race_test :
    (run host
      (opened request (pos 1000) (pos 1000)
        ∷ closed_by (codes "session-1")
        ∷ opened request (pos 1999) (pos 2000)
        ∷ [])
      new_relay).admitted
    ≡ request ∷ request ∷ []
unfolding computing
race_test = refl

run-AreOnce_example :
    (let r = run host events new_relay in
      (length r.sessions ≤ 2) × (length r.seen ≤ 256) × AreOnce r.dials)
run-AreOnce_example = run-AreOnce host events

steady : IsSteady (pos 1000) events
steady = (omega arith, refl, (omega arith, refl, (omega arith, refl, (omega arith, refl, tt))))

run-AreDifferent_example : AreDifferent (run host events new_relay).admitted
run-AreDifferent_example = run-AreDifferent host (pos 1000) events (omega arith) steady
