-- ===== src/Agent/Replay.antt =====
-- A signed request opens one session, in internal/cloudagent/agent.go.
use sshm.Prelude.{
  ℤ, pos, ◌≤ℤ◌, ltb_ℤ, eq_ℤ, Bool, true, false, not, ◌||◌, List, [], ◌∷◌, some, ◌≡◌, ◌≢◌, refl,
  arith, ap, sym, ◌∙◌, Bool-cases, inl, inr, ◌⊎◌, leb, length,
}
use sshm.Text.{Text, ◌==◌, text_eq_iff}
use sshm.Map.{Map, get, put, is_some}
use sshm.Map.Laws.{get-put, get-put_self}
use sshm.Shell.{ShellOpen, verify_shell, is_admissible}
use sshm.Agent.{
  Host, Relay, new_relay, close_session, forget, is_busy, is_seen, open_session, frame_session,
  attach, take_input, Event, opened, framed, closed_by, attached, taken, step, run,
}
use sshm.Agent.Unmoved.{Same, close_session-Same, frame_session-Same}

-- Every request that was admitted is remembered until it expires.
abbrev Remembered : ℤ → Map ℤ → List ShellOpen → Type 0
Remembered now seen [] = Unit
Remembered now seen (q ∷ log) =
    ((get q.session seen ≡ some q.expires) ⊎ (q.expires ≤ℤ now)) × Remembered now seen log

-- Two requests that one signature cannot stand for.
abbrev Differs : ShellOpen → List ShellOpen → Type 0
Differs q [] = Unit
Differs q (p ∷ log) = (p.session ≡ q.session → p.expires ≢ q.expires) × Differs q log

abbrev pub AreDifferent : List ShellOpen → Type 0
AreDifferent [] = Unit
AreDifferent (q ∷ log) = Differs q log × AreDifferent log

get-forget :
    (now : ℤ) (k : Text) (e : ℤ) (seen : Map ℤ)
    → get k seen ≡ some e
    → (get k (forget now seen) ≡ some e) ⊎ (e ≤ℤ now)
unfolding forget get
get-forget now k e [] h = cc h
get-forget now k e ((j, x) ∷ seen) h = elim (Bool-cases (ltb_ℤ now x)) [
  | inl late ↦ elim (Bool-cases (j == k)) [
    | inl same ↦ rw (late, same) (inl (rw same at h))
    | inr other ↦ rw (late, other) (get-forget now k e seen (rw other at h))
  ]
  | inr old ↦ elim (Bool-cases (j == k)) [
    | inl same ↦ inr (expired x (rw same at h) old)
    | inr other ↦ rw old (get-forget now k e seen (rw other at h))
  ]
]
  where
    expired : (x : ℤ) → some x ≡ some e → ltb_ℤ now x ≡ false → e ≤ℤ now
    expired x same old = let eq : x ≡ e = cc same in rw (sym eq) (ground (arith, old))

-- Of a request for a session that is not seen, the earlier ones have expired.
gone :
    (now : ℤ) (seen : Map ℤ) (q p : ShellOpen)
    → pos 0 ≤ℤ now
    → is_seen (get q.session (forget now seen)) ≡ false
    → ((get p.session seen ≡ some p.expires) ⊎ (p.expires ≤ℤ now))
    → p.session ≡ q.session
    → p.expires ≤ℤ now
gone now seen q p from free (inr late) same = late
gone now seen q p from free (inl there) same =
    elim (get-forget now p.session p.expires seen there) [
      | inr late ↦ late
      | inl kept ↦
          zero_expires p.expires
            (sym (ap is_seen (ap (λ k. get k (forget now seen)) (sym same) ∙ kept)) ∙ free)
    ]
  where
    zero_expires : (e : ℤ) → not (eq_ℤ e (pos 0)) ≡ false → e ≤ℤ now
    zero_expires e h = ground (arith, h, from)

later-Remembered :
    (h now : ℤ) (seen : Map ℤ) (log : List ShellOpen)
    → h ≤ℤ now
    → Remembered h seen log
    → Remembered now (forget now seen) log
later-Remembered h now seen [] le m = tt
later-Remembered h now seen (q ∷ log) le (here, m) =
    (from here, later-Remembered h now seen log le m)
  where
    from :
        ((get q.session seen ≡ some q.expires) ⊎ (q.expires ≤ℤ h))
        → (get q.session (forget now seen) ≡ some q.expires) ⊎ (q.expires ≤ℤ now)
    from (inl there) = get-forget now q.session q.expires seen there
    from (inr late) = inr (omega (arith, late, le))

verify-expires :
    (host : Host) (q : ShellOpen) (now : ℤ)
    → verify_shell host.sealing host.public q host.user host.device host.epoch now ≡ true
    → ltb_ℤ now q.expires ≡ true
unfolding verify_shell is_admissible
verify-expires host q now h = ground arith

free_name :
    (q : ShellOpen) (seen : Map ℤ) (r : Relay)
    → is_busy q seen r ≡ false
    → is_seen (get q.session seen) ≡ false
unfolding is_busy
free_name q seen r h =
    third (leb 2 (length r.sessions)) (is_some (get q.session r.sessions))
      (is_seen (get q.session seen)) (leb 256 (length seen)) h
  where
    third : (a b c d : Bool) → (a || b || c || d) ≡ false → c ≡ false
    third false false false d h = refl
    third false false true d h = cc h
    third false true c d h = cc h
    third true b c d h = cc h

-- What an admission at `now` makes of the requests before it.
admitted_lem :
    (h now : ℤ) (seen : Map ℤ) (q : ShellOpen) (log : List ShellOpen)
    → pos 0 ≤ℤ now
    → h ≤ℤ now
    → ltb_ℤ now q.expires ≡ true
    → is_seen (get q.session (forget now seen)) ≡ false
    → Remembered h seen log
    → Remembered now (put q.session q.expires (forget now seen)) log × Differs q log
admitted_lem h now seen q [] from le good free m = (tt, tt)
admitted_lem h now seen q (p ∷ log) from le good free (here, m) =
    let rest = admitted_lem h now seen q log from le good free m in
    (
      (kept (Bool-cases (q.session == p.session)), rest.0),
      (λ same e. past e (expired same), rest.1),
    )
  where
    later : (get p.session seen ≡ some p.expires) ⊎ (p.expires ≤ℤ now)
    later = elim here [ inl there ↦ inl there | inr late ↦ inr (omega (arith, late, le)) ]

    expired : p.session ≡ q.session → p.expires ≤ℤ now
    expired = gone now seen q p from free later

    past : p.expires ≡ q.expires → p.expires ≤ℤ now → ⊥
    past e late = ground (arith, good, rw e at late)

    unmoved :
        ((get p.session seen ≡ some p.expires) ⊎ (p.expires ≤ℤ now))
        → (get p.session (forget now seen) ≡ some p.expires) ⊎ (p.expires ≤ℤ now)
    unmoved (inl there) = get-forget now p.session p.expires seen there
    unmoved (inr late) = inr late

    kept :
        (((q.session == p.session) ≡ true) ⊎ ((q.session == p.session) ≡ false))
        → (get p.session (put q.session q.expires (forget now seen)) ≡ some p.expires)
          ⊎ (p.expires ≤ℤ now)
    kept (inl same) = inr (expired (sym ((text_eq_iff q.session p.session).0 same)))
    kept (inr other) = rw (get-put, other) (unmoved later)

record Log (h : ℤ) (r : Relay) : Type 0 where
  remembered : Remembered h r.seen r.admitted
  different : AreDifferent r.admitted

same-Log : (h : ℤ) (r after : Relay) → Same r after → Log h r → Log h after
same-Log h r after s l = record {
  remembered = rw (s.0, s.1) l.remembered;
  different = rw s.1 l.different;
}

open_session-Log :
    (host : Host) (q : ShellOpen) (h now : ℤ) (r : Relay)
    → pos 0 ≤ℤ now
    → h ≤ℤ now
    → Log h r
    → Log now (open_session host q now now r)
unfolding open_session
open_session-Log host q h now r from le l =
    elim (Bool-cases
      (verify_shell host.sealing host.public q host.user host.device host.epoch now)) [
        | inr bad ↦ rw bad (record {
          remembered = wait h now r.seen r.admitted le l.remembered;
          different = l.different;
        })
        | inl good ↦ elim (Bool-cases (is_busy q (forget now r.seen) r)) [
          | inl busy ↦
              rw (good, busy)
                (record {
                  remembered = later-Remembered h now r.seen r.admitted le l.remembered;
                  different = l.different;
                })
          | inr free ↦
              rw (good, free)
                (record {
                  remembered = (
                    inl (get-put_self q.session q.expires (forget now r.seen)),
                    (admission good free).0,
                  );
                  different = ((admission good free).1, l.different);
                })
        ]
      ]
  where
    wait :
        (h now : ℤ) (seen : Map ℤ) (log : List ShellOpen)
        → h ≤ℤ now
        → Remembered h seen log
        → Remembered now seen log
    wait h now seen [] le m = tt
    wait h now seen (p ∷ log) le (inl there, m) = (inl there, wait h now seen log le m)
    wait h now seen (p ∷ log) le (inr late, m) =
        (inr (omega (arith, late, le)), wait h now seen log le m)

    admission :
        verify_shell host.sealing host.public q host.user host.device host.epoch now ≡ true
        → is_busy q (forget now r.seen) r ≡ false
        → Remembered now (put q.session q.expires (forget now r.seen)) r.admitted
          × Differs q r.admitted
    admission good free =
        admitted_lem h now r.seen q r.admitted from le (verify-expires host q now good)
          (free_name q (forget now r.seen) r free) l.remembered

-- The clock does not go back, and one message sees one reading of it.
abbrev pub IsSteady : ℤ → List Event → Type 0
IsSteady h [] = Unit
IsSteady h (opened q now later ∷ events) = (h ≤ℤ now) × (later ≡ now) × IsSteady now events
IsSteady h (framed f ∷ events) = IsSteady h events
IsSteady h (closed_by id ∷ events) = IsSteady h events
IsSteady h (attached j ∷ events) = IsSteady h events
IsSteady h (taken j ∷ events) = IsSteady h events

run-Log :
    (host : Host) (h : ℤ) (events : List Event) (r : Relay)
    → pos 0 ≤ℤ h
    → IsSteady h events
    → Log h r
    → AreDifferent (run host events r).admitted
unfolding run step attach take_input
run-Log host h [] r from s l = l.different
run-Log host h (opened q now later ∷ events) r from (le, same, s) l =
    let start : pos 0 ≤ℤ now = omega (arith, from, le) in
    rw same (
      run-Log host now events (open_session host q now now r) start s
        (open_session-Log host q h now r start le l))
run-Log host h (framed f ∷ events) r from s l =
    run-Log host h events (frame_session host f r) from s
      (same-Log h r (frame_session host f r) (frame_session-Same host f r) l)
run-Log host h (closed_by id ∷ events) r from s l =
    run-Log host h events (close_session id r) from s
      (same-Log h r (close_session id r) (close_session-Same id r) l)
run-Log host h (attached j ∷ events) r from s l =
    run-Log host h events (attach j r) from s (same-Log h r (attach j r) (refl, refl) l)
run-Log host h (taken j ∷ events) r from s l =
    run-Log host h events (take_input j r) from s (same-Log h r (take_input j r) (refl, refl) l)

-- However the relay repeats messages and the goroutines interleave, a signed request opens at most one
-- session of a connection: no two that were admitted agree in session and expiry. The clock does not go
-- back, and the check of a request and the purge after it read the same instant.
pub run-AreDifferent :
    (host : Host) (h : ℤ) (events : List Event)
    → pos 0 ≤ℤ h
    → IsSteady h events
    → AreDifferent (run host events new_relay).admitted
unfolding new_relay
run-AreDifferent host h events from steady =
    run-Log host h events new_relay from steady (record { remembered = tt; different = tt })
