-- ===== src/Agent/Unmoved.antt =====
-- What the operations on open sessions of internal/cloudagent/agent.go leave as it is.
use sshm.Prelude.{
  ℕ, true, not, ◌&&◌, ◌||◌, Option, none, some, ◌≡◌, refl, Bool-cases, inl, inr, ltb,
}
use sshm.Text.{Text, ◌==◌, codes}
use sshm.Map.{get}
use sshm.Result.{Result, ok, err}
use sshm.Shell.{ShellPayload, ShellFrame, ShellCipher, ShellError, open_frame}
use sshm.Agent.{
  Session, Host, Relay, object, change, close_found, close_session, connect_session, queue_input,
  payload_session, frame_object, frame_found, frame_session,
}

-- What the operations on an open session leave alone.
abbrev pub Same : Relay → Relay → Type 0
Same r after = (after.seen ≡ r.seen) × (after.admitted ≡ r.admitted)

pub close_session-Same : (id : Text) (r : Relay) → Same r (close_session id r)
unfolding close_session
close_session-Same id r = found (get id r.sessions)
  where
    found : (o : Option ℕ) → Same r (close_found id r o)
    found none = (refl, refl)
    found (some h) = (refl, refl)

connect_session-Same :
    (id : Text) (h : ℕ) (x : Session) (r : Relay) → Same r (connect_session id h x r)
unfolding connect_session
connect_session-Same id h x r = elim (Bool-cases (not x.started && not x.closed)) [
  | inl e ↦ rw e (refl, refl)
  | inr e ↦ rw e (close_session-Same id (change h (λ y. record y { started = true }) r))
]

queue_input-Same : (id : Text) (h : ℕ) (x : Session) (r : Relay) → Same r (queue_input id h x r)
unfolding queue_input
queue_input-Same id h x r = elim (Bool-cases (not x.has_pty || not (ltb x.queued 32))) [
  | inl e ↦ rw e (close_session-Same id r)
  | inr e ↦ rw e (refl, refl)
]

pub frame_session-Same :
    (host : Host) (f : ShellFrame) (r : Relay) → Same r (frame_session host f r)
unfolding frame_session frame_found frame_object payload_session
frame_session-Same host f r = found (get f.session r.sessions)
  where
    payload :
        (h : ℕ) (x : Session) (o : Result ShellError (ShellCipher × ShellPayload))
        → Same r (payload_session f.session h x r o)
    payload h x (err e) = close_session-Same f.session r
    payload h x (ok (recv, p)) = elim (Bool-cases (p.type == codes "connect")) [
      | inl e ↦
          rw e (connect_session-Same f.session h x (change h (λ y. record y { recv = recv }) r))
      | inr e ↦ rw e (queue_input-Same f.session h x (change h (λ y. record y { recv = recv }) r))
    ]

    at_object : (h : ℕ) (o : Option Session) → Same r (frame_object host f h r o)
    at_object h none = (refl, refl)
    at_object h (some x) = payload h x (open_frame host.sealing x.recv f)

    found : (o : Option ℕ) → Same r (frame_found host f r o)
    found none = (refl, refl)
    found (some h) = at_object h (object h r.heap)
