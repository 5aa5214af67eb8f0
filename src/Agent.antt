-- ===== src/Agent.antt =====
-- internal/cloudagent/agent.go: the terminal sessions of one connection to the relay. A session is the
-- index of its object, which goroutines keep after the table has dropped it. The goroutines' steps are
-- events of their own, in any order; sockets, terminals and timers are outside.
pub mod Heap
pub mod Unmoved
pub mod Table
pub mod Replay
pub mod Target
use sshm.Prelude.{
  ℕ, zero, suc, ◌+◌, ◌-◌, ℤ, pos, ltb_ℤ, eq_ℤ, Bool, true, false, not, ◌&&◌, ◌||◌, List, [], ◌∷◌,
  ◌++◌, Option, none, some, if◌then◌else◌, ltb, leb, length,
}
use sshm.Text.{Text, ◌==◌, codes}
unfoldable use sshm.Text.{text_eq}
use sshm.Map.{Map, is_some}
unfoldable use sshm.Map.{get, put, remove}
use sshm.Result.{Result, ok, err}
use sshm.Shell.{
  Bytes, ShellOpen, ShellPayload, ShellFrame, ShellCipher, ShellError, Sealing, cipher_for,
}
unfoldable use sshm.Shell.{verify_shell, open_frame}

pub record Session : Type 0 where
  pub recv : ShellCipher
  pub started : Bool
  pub closed : Bool
  pub has_pty : Bool
  pub queued : ℕ

-- The connection: the account, the device and the epoch that it announced, and the vault's keys.
pub record Host : Type 0 where
  pub sealing : Sealing
  pub public : Text
  pub master : Bytes
  pub user : Text
  pub device : Text
  pub epoch : Text

-- `dials` are the sessions that openTarget was started for, and `admitted` the requests that opened one,
-- the latest first.
pub record Relay : Type 0 where
  pub heap : List Session
  pub sessions : Map ℕ
  pub seen : Map ℤ
  pub dials : List ℕ
  pub admitted : List ShellOpen

unfoldable pub new_relay : Relay
new_relay = record { heap = []; sessions = []; seen = []; dials = []; admitted = [] }

unfoldable pub object : ℕ → List Session → Option Session
object h [] = none
object zero (x ∷ heap) = some x
object (suc h) (x ∷ heap) = object h heap

unfoldable pub change_object : ℕ → (Session → Session) → List Session → List Session
change_object h f [] = []
change_object zero f (x ∷ heap) = f x ∷ heap
change_object (suc h) f (x ∷ heap) = x ∷ change_object h f heap

abbrev pub change : ℕ → (Session → Session) → Relay → Relay
change h f r = record r { heap = change_object h f r.heap }

abbrev close_found : Text → Relay → Option ℕ → Relay
close_found id r none = r
close_found id r (some h) =
    change h (λ x. record x { closed = true }) (record r { sessions = remove id r.sessions })

-- closeSession
unfoldable pub close_session : Text → Relay → Relay
unfolding get change_object remove
close_session id r = close_found id r (get id r.sessions)

-- if expires <= time.Now().UnixMilli() { delete(seen, id) }
unfoldable pub forget : ℤ → Map ℤ → Map ℤ
forget now [] = []
forget now ((id, expires) ∷ seen) =
    let rest = forget now seen in if ltb_ℤ now expires then (id, expires) ∷ rest else rest

-- seen[r.Session] != 0
abbrev pub is_seen : Option ℤ → Bool
is_seen none = false
is_seen (some expires) = not (eq_ℤ expires (pos 0))

unfoldable pub is_busy : ShellOpen → Map ℤ → Relay → Bool
unfolding get
is_busy q seen r =
    leb 2 (length r.sessions)
    || is_some (get q.session r.sessions)
    || is_seen (get q.session seen)
    || leb 256 (length seen)

unfoldable pub new_session : Host → ShellOpen → Session
unfolding text_eq
new_session host q = record {
  recv =
      cipher_for host.sealing host.master host.user host.device host.epoch q.session (codes "c2a");
  started = not (q.mode == codes "ssh");
  closed = false;
  has_pty = false;
  queued = 0;
}

-- A signed request: `now` is the clock of VerifyShell, `later` that of the purge.
unfoldable pub open_session : Host → ShellOpen → ℤ → ℤ → Relay → Relay
unfolding verify_shell forget is_busy new_session put
open_session host q now later r =
    if not (verify_shell host.sealing host.public q host.user host.device host.epoch now)
    then r
    else (let seen = forget later r.seen in
        if is_busy q seen r then record r { seen = seen } else record r {
          heap = r.heap ++ new_session host q ∷ [];
          sessions = put q.session (length r.heap) r.sessions;
          seen = put q.session q.expires seen;
          admitted = q ∷ r.admitted;
        })

-- A first connect starts a dial; another one closes the session.
unfoldable pub connect_session : Text → ℕ → Session → Relay → Relay
unfolding close_session change_object
connect_session id h x r =
    let started = change h (λ y. record y { started = true }) r in
    if not x.started && not x.closed
    then record started { dials = h ∷ r.dials }
    else close_session id started

-- Input waits in a channel of 32 places.
unfoldable pub queue_input : Text → ℕ → Session → Relay → Relay
unfolding close_session change_object
queue_input id h x r =
    if not x.has_pty || not (ltb x.queued 32)
    then close_session id r
    else change h (λ y. record y { queued = y.queued + 1 }) r

payload_session :
    Text → ℕ → Session → Relay → Result ShellError (ShellCipher × ShellPayload) → Relay
unfolding close_session connect_session queue_input change_object text_eq
payload_session id h x r (err e) = close_session id r
payload_session id h x r (ok (recv, p)) =
    let opened = change h (λ y. record y { recv = recv }) r in
    if p.type == codes "connect" then connect_session id h x opened else queue_input id h x opened

frame_object : Host → ShellFrame → ℕ → Relay → Option Session → Relay
unfolding payload_session open_frame
frame_object host f h r none = r
frame_object host f h r (some x) =
    payload_session f.session h x r (open_frame host.sealing x.recv f)

frame_found : Host → ShellFrame → Relay → Option ℕ → Relay
unfolding frame_object object
frame_found host f r none = r
frame_found host f r (some h) = frame_object host f h r (object h r.heap)

-- The case "frame".
unfoldable pub frame_session : Host → ShellFrame → Relay → Relay
unfolding frame_found get
frame_session host f r = frame_found host f r (get f.session r.sessions)

-- session.attach
unfoldable pub attach : ℕ → Relay → Relay
unfolding change_object
attach h r = change h (λ x. if x.closed then x else record x { has_pty = true }) r

-- The terminal takes one payload from the channel.
unfoldable pub take_input : ℕ → Relay → Relay
unfolding change_object
take_input h r = change h (λ x. record x { queued = x.queued - 1 }) r

-- What can happen next: a message of the relay, a goroutine that closes its session by name, a terminal
-- that stands or takes input.
pub data Event : Type 0 where
  opened : ShellOpen → ℤ → ℤ → Event
  framed : ShellFrame → Event
  closed_by : Text → Event
  attached taken : ℕ → Event

unfoldable pub step : Host → Event → Relay → Relay
unfolding open_session frame_session close_session attach take_input
step host (opened q now later) r = open_session host q now later r
step host (framed f) r = frame_session host f r
step host (closed_by id) r = close_session id r
step host (attached h) r = attach h r
step host (taken h) r = take_input h r

unfoldable pub run : Host → List Event → Relay → Relay
unfolding step
run host [] r = r
run host (e ∷ events) r = run host events (step host e r)
