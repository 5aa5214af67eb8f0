-- ===== src/Agent/Table.antt =====
-- The bounds of the session table of internal/cloudagent/agent.go, and that a session dials once.
use sshm.Prelude.{
  ℕ, ◌≤◌, ◌<◌, ℤ, Bool, true, false, not, ◌&&◌, ◌||◌, List, [], ◌∷◌, ◌++◌, Option, none, some, ◌≡◌,
  ◌≢◌, refl, arith, ap, ◌∙◌, Bool-cases, inl, inr, if◌then◌else◌, leb, ltb, length,
}
use sshm.Text.{Text, ◌==◌, codes}
use sshm.Map.{Map, get, remove, is_some}
use sshm.Result.{Result, ok, err}
use sshm.Shell.{
  ShellOpen, ShellPayload, ShellFrame, ShellCipher, ShellError, verify_shell, open_frame,
}
use sshm.Agent.{
  Session, Host, Relay, new_relay, object, change_object, change, close_found, close_session,
  forget, is_busy, is_seen, new_session, open_session, connect_session, queue_input,
  payload_session, frame_object, frame_found, frame_session, attach, take_input, Event, opened,
  framed, closed_by, attached, taken, step, run,
}
use sshm.Agent.Heap.{
  length-put, length-remove, length-forget, has_started, Keeps, started-change, started-append,
  start_lem, object-change,
}

abbrev AllStarted : List Session → List ℕ → Type 0
AllStarted heap [] = Unit
AllStarted heap (h ∷ dials) = (has_started (object h heap) ≡ true) × AllStarted heap dials

AllStarted-map :
    (heap after : List Session) (dials : List ℕ)
    → ((h : ℕ) → has_started (object h heap) ≡ true → has_started (object h after) ≡ true)
    → AllStarted heap dials
    → AllStarted after dials
AllStarted-map heap after [] keep a = tt
AllStarted-map heap after (h ∷ dials) keep a =
    (keep h a.0, AllStarted-map heap after dials keep a.1)

abbrev IsNew : ℕ → List ℕ → Type 0
IsNew h [] = Unit
IsNew h (j ∷ dials) = (j ≢ h) × IsNew h dials

-- No session stands twice.
abbrev pub AreOnce : List ℕ → Type 0
AreOnce [] = Unit
AreOnce (h ∷ dials) = IsNew h dials × AreOnce dials

IsNew-of_idle :
    (h : ℕ) (heap : List Session) (dials : List ℕ)
    → has_started (object h heap) ≡ false
    → AllStarted heap dials
    → IsNew h dials
IsNew-of_idle h heap [] idle a = tt
IsNew-of_idle h heap (j ∷ dials) idle a = (
  (λ e. cc (ap (λ i. has_started (object i heap)) e, a.0, idle)),
  IsNew-of_idle h heap dials idle a.1,
)

record Good (r : Relay) : Type 0 where
  few : length r.sessions ≤ 2
  remembered : length r.seen ≤ 256
  once : AreOnce r.dials
  dialed : AllStarted r.heap r.dials

change-Good : (h : ℕ) (f : Session → Session) (r : Relay) → Keeps f → Good r → Good (change h f r)
change-Good h f r keeps g = record {
  few = g.few;
  remembered = g.remembered;
  once = g.once;
  dialed =
      AllStarted-map r.heap (change_object h f r.heap) r.dials
        (λ j. started-change j h f r.heap keeps) g.dialed;
}

removed-Good :
    (id : Text) (r : Relay) → Good r → Good (record r { sessions = remove id r.sessions })
removed-Good id r g = record {
  few = omega (arith, length-remove id r.sessions, g.few);
  remembered = g.remembered;
  once = g.once;
  dialed = g.dialed;
}

close_session-Good : (id : Text) (r : Relay) → Good r → Good (close_session id r)
unfolding close_session
close_session-Good id r g = found (get id r.sessions)
  where
    found : (o : Option ℕ) → Good (close_found id r o)
    found none = g
    found (some h) =
        change-Good h (λ x. record x { closed = true })
          (record r { sessions = remove id r.sessions }) (λ x s. s) (removed-Good id r g)

free_room :
    (q : ShellOpen) (seen : Map ℤ) (r : Relay)
    → is_busy q seen r ≡ false
    → (length r.sessions < 2) × (length seen < 256)
unfolding is_busy
free_room q seen r h =
    let free =
      room (leb 2 (length r.sessions)) (is_some (get q.session r.sessions))
        (is_seen (get q.session seen)) (leb 256 (length seen)) h in
    (below 2 (length r.sessions) free.0, below 256 (length seen) free.1)
  where
    room : (a b c d : Bool) → (a || b || c || d) ≡ false → (a ≡ false) × (d ≡ false)
    room false false false d h = (refl, h)
    room false false true d h = cc h
    room false true c d h = cc h
    room true b c d h = cc h

    below : (m n : ℕ) → leb m n ≡ false → n < m
    below m n h = ground (arith, h)

open_session-Good :
    (host : Host) (q : ShellOpen) (now later : ℤ) (r : Relay)
    → Good r
    → Good (open_session host q now later r)
unfolding open_session
open_session-Good host q now later r g =
    elim (Bool-cases
      (verify_shell host.sealing host.public q host.user host.device host.epoch now)) [
        | inr bad ↦ rw bad g
        | inl signed ↦ elim (Bool-cases (is_busy q (forget later r.seen) r)) [
          | inl busy ↦
              rw (signed, busy)
                (record {
                  few = g.few;
                  remembered = omega (arith, length-forget later r.seen, g.remembered);
                  once = g.once;
                  dialed = g.dialed;
                })
          | inr free ↦
              rw (signed, free)
                (record {
                  few = omega (
                    arith,
                    length-put q.session (length r.heap) r.sessions,
                    (free_room q (forget later r.seen) r free).0,
                  );
                  remembered = omega (
                    arith,
                    length-put q.session q.expires (forget later r.seen),
                    (free_room q (forget later r.seen) r free).1,
                  );
                  once = g.once;
                  dialed =
                      AllStarted-map r.heap (r.heap ++ new_session host q ∷ []) r.dials
                        (λ j. started-append j r.heap (new_session host q ∷ [])) g.dialed;
                })
        ]
      ]

connect_session-Good :
    (id : Text) (h : ℕ) (x : Session) (r : Relay)
    → ((y : Session) × (object h r.heap ≡ some y) × (y.started ≡ x.started))
    → Good r
    → Good (connect_session id h x r)
unfolding connect_session
connect_session-Good id h x r here g = elim (Bool-cases (not x.started && not x.closed)) [
  | inr e ↦ rw e (close_session-Good id _ (change-Good h _ r (λ y s. refl) g))
  | inl e ↦ rw e (record {
    few = g.few;
    remembered = g.remembered;
    once = (IsNew-of_idle h r.heap r.dials (idle e) g.dialed, g.once);
    dialed = (
      start_lem h here.0 r.heap here.1,
      AllStarted-map r.heap _ r.dials (λ j. started-change j h _ r.heap (λ y s. refl)) g.dialed,
    );
  })
]
  where
    not_started : (a b : Bool) → (not a && not b) ≡ true → a ≡ false
    not_started false b h = refl
    not_started true b h = cc h

    idle : (not x.started && not x.closed) ≡ true → has_started (object h r.heap) ≡ false
    idle e = ap has_started here.1 ∙ here.2 ∙ not_started x.started x.closed e

queue_input-Good :
    (id : Text) (h : ℕ) (x : Session) (r : Relay) → Good r → Good (queue_input id h x r)
unfolding queue_input
queue_input-Good id h x r g = elim (Bool-cases (not x.has_pty || not (ltb x.queued 32))) [
  | inl e ↦ rw e (close_session-Good id r g)
  | inr e ↦ rw e (change-Good h _ r (λ y s. s) g)
]

frame_session-Good :
    (host : Host) (f : ShellFrame) (r : Relay) → Good r → Good (frame_session host f r)
unfolding frame_session frame_found frame_object payload_session
frame_session-Good host f r g = found (get f.session r.sessions)
  where
    payload :
        (h : ℕ) (x : Session)
        → object h r.heap ≡ some x
        → (o : Result ShellError (ShellCipher × ShellPayload))
        → Good (payload_session f.session h x r o)
    payload h x here (err e) = close_session-Good f.session r g
    payload h x here (ok (recv, p)) =
        let opened = change-Good h (λ y. record y { recv = recv }) r (λ y s. s) g in
        elim (Bool-cases (p.type == codes "connect")) [
          | inl e ↦ rw e (
              connect_session-Good f.session h x _
                (
                  record x { recv = recv },
                  object-change h (λ y. record y { recv = recv }) x r.heap here,
                  refl,
                )
                opened)
          | inr e ↦ rw e (queue_input-Good f.session h x _ opened)
        ]

    at_object :
        (h : ℕ) (o : Option Session) → object h r.heap ≡ o → Good (frame_object host f h r o)
    at_object h none e = g
    at_object h (some x) e = payload h x e (open_frame host.sealing x.recv f)

    found : (o : Option ℕ) → Good (frame_found host f r o)
    found none = g
    found (some h) = at_object h (object h r.heap) refl

step-Good : (host : Host) (e : Event) (r : Relay) → Good r → Good (step host e r)
unfolding step attach take_input
step-Good host (opened q now later) r g = open_session-Good host q now later r g
step-Good host (framed f) r g = frame_session-Good host f r g
step-Good host (closed_by id) r g = close_session-Good id r g
step-Good host (attached h) r g = change-Good h _ r attached_lem g
  where
    attached_lem : Keeps (λ x. if x.closed then x else record x { has_pty = true })
    attached_lem x s = elim (Bool-cases x.closed) [ inl e ↦ rw e s | inr e ↦ rw e s ]
step-Good host (taken h) r g = change-Good h _ r (λ y s. s) g

run-Good : (host : Host) (events : List Event) (r : Relay) → Good r → Good (run host events r)
unfolding run
run-Good host [] r g = g
run-Good host (e ∷ events) r g = run-Good host events (step host e r) (step-Good host e r g)

-- Whatever reaches a connection and however its goroutines interleave, it holds at most 2 sessions and
-- remembers at most 256 requests, and no session starts a second dial, also when connects are repeated.
pub run-AreOnce :
    (host : Host) (events : List Event)
    → (let r = run host events new_relay in
        (length r.sessions ≤ 2) × (length r.seen ≤ 256) × AreOnce r.dials)
unfolding new_relay
run-AreOnce host events =
    let g =
      run-Good host events new_relay
        (record { few = omega arith; remembered = omega arith; once = tt; dialed = tt }) in
    (g.few, g.remembered, g.once)
