-- ===== src/Config/Activity/Laws.antt =====
-- Observations of internal/config/activity.go only move forward, whatever order they arrive in.
use sshm.Prelude.{
  ℕ, suc, ◌<◌, pos, negsuc, ◌≤ℤ◌, Bool, true, false, ◌&&◌, [], ◌∷◌, Option, none, some, ◌≡◌, ◌≢◌,
  refl, arith, if◌then◌else◌, is_nil, ap, ◌∙◌, Bool-cases, inl, inr,
}
use sshm.Text.{Text, ◌==◌, text_eq_iff}
use sshm.Map.{Map, get}
use sshm.Map.Laws.{get-put}
use sshm.Time.{Time, is_zero}
use sshm.Config.{Server, Config}
use sshm.Config.Activity.{
  ProbeObservation, same_connection, is_news, is_current, use_server, change_server, record_ssh_use,
  probe_server, record_probes, is_expected, status_online, status_offline,
}

-- All but what a probe may change is the same, and times have not moved back.
pub record IsProbed (s s' : Server) : Type 0 where
  pub rest :
      record s {
        last_checked = s'.last_checked;
        last_status = s'.last_status;
        last_seen = s'.last_seen;
      }
      ≡ s'
  pub checked : s.last_checked ≤ℤ s'.last_checked
  pub seen : s.last_seen ≤ℤ s'.last_seen

abbrev pub IsDated : Map ProbeObservation → Type 0
IsDated [] = Unit
IsDated ((alias, o) ∷ results) = (pos 0 ≤ℤ o.observed_at) × IsDated results

current_forward :
    (at t : Time) (mine : Bool) → pos 0 ≤ℤ at → t ≤ℤ (if mine && is_current at t then at else t)
current_forward at (pos n) mine h = ground arith
current_forward at (negsuc n) mine h = ground arith

news_forward :
    (at t : Time) (mine up : Bool)
    → pos 0 ≤ℤ at
    → t ≤ℤ (if mine && up && is_news at t then at else t)
news_forward at (pos n) mine up h = ground arith
news_forward at (negsuc n) mine up h = ground arith

observed_date :
    (now at : Time) → pos 0 ≤ℤ now → pos 0 ≤ℤ at → pos 0 ≤ℤ (if is_zero at then now else at)
observed_date now at n h = elim (Bool-cases (is_zero at)) [ inl e ↦ rw e n | inr e ↦ rw e h ]

probe_server-IsProbed :
    (now : Time) (o : ProbeObservation) (s : Server)
    → pos 0 ≤ℤ now
    → pos 0 ≤ℤ o.observed_at
    → IsProbed s (probe_server now o s)
unfolding probe_server
probe_server-IsProbed now o s n h = record {
  rest = refl;
  checked = current_forward _ s.last_checked _ (observed_date now o.observed_at n h);
  seen = news_forward _ s.last_seen _ o.reachable (observed_date now o.observed_at n h);
}

IsProbed-refl : (s : Server) → IsProbed s s
IsProbed-refl s = record { rest = refl; checked = ground arith; seen = ground arith }

IsProbed-trans : (a b c : Server) → IsProbed a b → IsProbed b c → IsProbed a c
IsProbed-trans a b c p q = record {
  rest =
      ap {A = Server} {B = Server}
        (λ x. record x {
          last_checked = c.last_checked;
          last_status = c.last_status;
          last_seen = c.last_seen;
        })
        p.rest
      ∙ q.rest;
  checked = omega (arith, p.checked, q.checked);
  seen = omega (arith, p.seen, q.seen);
}

IsProbed-if :
    (mine : Bool) (now : Time) (o : ProbeObservation) (s : Server)
    → pos 0 ≤ℤ now
    → pos 0 ≤ℤ o.observed_at
    → IsProbed s (if mine then probe_server now o s else s)
IsProbed-if true now o s n h = probe_server-IsProbed now o s n h
IsProbed-if false now o s n h = IsProbed-refl s

-- The server of `alias` after a change of the server of `key`.
get-change_server :
    (f : Server → Server) (key alias : Text) (cfg : Config) (s : Server)
    → get alias cfg.servers ≡ some (some s)
    → get alias (change_server f key (get key cfg.servers) cfg).servers
      ≡ some (some (if key == alias then f s else s))
get-change_server f key alias cfg s h = elim (Bool-cases (key == alias)) [
  | inl e ↦ rw (e, (text_eq_iff key alias).0 e, h, get-put, (text_eq_iff alias alias).1 refl)
  | inr e ↦ from (get key cfg.servers) e
]
  where
    from :
        (o : Option (Option Server))
        → (key == alias) ≡ false
        → get alias (change_server f key o cfg).servers
          ≡ some (some (if key == alias then f s else s))
    from none e = rw (e, h)
    from (some none) e = rw (e, h)
    from (some (some server)) e = rw (get-put, e, h)

-- Probes made at or after the zero time, in whatever order their results arrive, keep every
-- server: of its record they change only the last check, the status and when it was last seen,
-- and no time moves back. A probe never counts as a use.
pub record_probes-IsProbed :
    (now : Time) (results : Map ProbeObservation) (cfg : Config) (alias : Text) (s : Server)
    → pos 0 ≤ℤ now
    → IsDated results
    → get alias cfg.servers ≡ some (some s)
    → (s' : Server) × (get alias (record_probes now results cfg).servers ≡ some (some s'))
      × IsProbed s s'
unfolding record_probes
record_probes-IsProbed now [] cfg alias s n dated h = (s, h, IsProbed-refl s)
record_probes-IsProbed now ((key, o) ∷ results) cfg alias s n dated h =
    let s1 = if key == alias then probe_server now o s else s in
    let rest =
      record_probes-IsProbed now results
        (change_server (probe_server now o) key (get key cfg.servers) cfg) alias s1 n dated.1
        (get-change_server (probe_server now o) key alias cfg s h) in
    (
      rest.0,
      rest.1,
      IsProbed-trans s s1 rest.0 (IsProbed-if (key == alias) now o s n dated.0) rest.2,
    )

same_fields :
    (s : Server) {c c' : Time} {st st' : Text} {n n' : Time}
    → c ≡ c'
    → st ≡ st'
    → n ≡ n'
    → record s { last_checked = c; last_status = st; last_seen = n }
      ≡ record s { last_checked = c'; last_status = st'; last_seen = n' }
same_fields s p q r = cc (p, q, r)

status_at : {A : Type 0} → Bool → Time → A → Time × A → Time × A
status_at mine at st (t, old) =
    (if mine && is_current at t then at else t, if mine && is_current at t then st else old)

status_at_comm :
    {A : Type 0} (a b : Bool) (m n : ℕ) (x y : A) (now : Time × A)
    → m ≢ n
    → status_at a (pos (suc m)) x (status_at b (pos (suc n)) y now)
      ≡ status_at b (pos (suc n)) y (status_at a (pos (suc m)) x now)
unfolding status_at
status_at_comm true true m n x y (pos k, z) apart = ground arith
status_at_comm true true m n x y (negsuc k, z) apart = ground arith
status_at_comm true false m n x y now apart = refl
status_at_comm false b m n x y now apart = refl

seen_comm :
    (a b : Bool) (m n : ℕ) (t : Time)
    → (let u = if b && is_news (pos (suc n)) t then pos (suc n) else t in
        if a && is_news (pos (suc m)) u then pos (suc m) else u)
      ≡ (let u = if a && is_news (pos (suc m)) t then pos (suc m) else t in
          if b && is_news (pos (suc n)) u then pos (suc n) else u)
seen_comm true true m n (pos k) = ground arith
seen_comm true true m n (negsuc k) = ground arith
seen_comm true false m n t = refl
seen_comm false b m n t = refl

is_zero-suc : (n : ℕ) → is_zero (pos (suc n)) ≡ false
is_zero-suc n = ground arith

probe_server_comm :
    (now : Time) (o p : ProbeObservation) (s : Server) (m n : ℕ)
    → o.observed_at ≡ pos (suc m)
    → p.observed_at ≡ pos (suc n)
    → m ≢ n
    → probe_server now o (probe_server now p s) ≡ probe_server now p (probe_server now o s)
unfolding probe_server status_at same_connection
probe_server_comm now o p s m n om pn apart =
    let mine_o = same_connection s o.host o.port o.user in
    let mine_p = same_connection s p.host p.port p.user in
    let found = λ (b : Bool). if b then status_online else status_offline in
    let checks =
      status_at_comm mine_o mine_p m n (found o.reachable) (found p.reachable)
        (s.last_checked, s.last_status) apart in
    rw (om, pn, is_zero-suc m, is_zero-suc n)
      (same_fields s (ap (λ x. x.0) checks) (ap (λ x. x.1) checks)
        (seen_comm (mine_o && o.reachable) (mine_p && p.reachable) m n s.last_seen))

latest_is_current :
    (mine : Bool) (m n : ℕ) (t : Time)
    → m < n
    → t ≤ℤ pos (suc n)
    → is_current (pos (suc n)) (if mine && is_current (pos (suc m)) t then pos (suc m) else t)
      ≡ true
latest_is_current true m n (pos k) before recent = ground arith
latest_is_current true m n (negsuc k) before recent = ground arith
latest_is_current false m n t before recent = ground arith

-- Two probes of the server's own connection, made at two different times after the zero time and
-- the later one not before the last check, may be recorded in either order: the result is the same,
-- its last check is the later probe, and its status is the later probe's.
pub probe_server_latest :
    (now : Time) (o p : ProbeObservation) (s : Server) (m n : ℕ)
    → o.observed_at ≡ pos (suc m)
    → p.observed_at ≡ pos (suc n)
    → m < n
    → same_connection s p.host p.port p.user ≡ true
    → s.last_checked ≤ℤ p.observed_at
    → (probe_server now o (probe_server now p s) ≡ probe_server now p (probe_server now o s))
      × ((probe_server now p (probe_server now o s)).last_checked ≡ p.observed_at)
      × ((probe_server now p (probe_server now o s)).last_status
          ≡ (if p.reachable then status_online else status_offline))
unfolding probe_server same_connection
probe_server_latest now o p s m n om pn before mine recent =
    let current =
      latest_is_current (same_connection s o.host o.port o.user) m n s.last_checked before
        (rw pn at recent) in
    (
      probe_server_comm now o p s m n om pn (λ e. omega (arith, e, before)),
      rw (om, pn, is_zero-suc m, is_zero-suc n, mine, current) refl,
      rw (om, pn, is_zero-suc m, is_zero-suc n, mine, current) refl,
    )

news_reached : (at t : Time) → at ≤ℤ (if is_news at t then at else t)
news_reached at (pos n) = ground arith
news_reached at (negsuc n) = ground arith

current_reached : (at t : Time) → at ≤ℤ (if is_current at t then at else t)
current_reached at (pos n) = ground arith
current_reached at (negsuc n) = ground arith

-- A login under an alias is recorded as a use, a sighting and both kinds of check, none of them before
-- the login; if the alias has another connection by then, its server stays as it is.
pub record_ssh_use_lem :
    (alias : Text) (expected : Option Server) (at : Time) (cfg : Config) (s : Server)
    → is_nil alias ≡ false
    → get alias cfg.servers ≡ some (some s)
    → (s' : Server) × (get alias (record_ssh_use alias expected at cfg).servers ≡ some (some s'))
      × (is_expected expected s ≡ false → s' ≡ s)
      × (is_expected expected s ≡ true
          → (at ≤ℤ s'.last_used)
            × (at ≤ℤ s'.last_seen)
            × (at ≤ℤ s'.last_checked)
            × (at ≤ℤ s'.last_ssh_checked))
unfolding record_ssh_use
record_ssh_use_lem alias expected at cfg s named h = (
  if is_expected expected s then use_server at s else s,
  rw named (
      get-change_server (λ x. if is_expected expected x then use_server at x else x) alias alias cfg
        s h
      ∙ rw ((text_eq_iff alias alias).1 refl) refl),
  λ e. rw e refl,
  λ e. rw e (used at s),
)
  where
    used :
        (at : Time) (s : Server)
        → (at ≤ℤ (use_server at s).last_used)
          × (at ≤ℤ (use_server at s).last_seen)
          × (at ≤ℤ (use_server at s).last_checked)
          × (at ≤ℤ (use_server at s).last_ssh_checked)
    used at s = (
      news_reached at s.last_used,
      news_reached at s.last_seen,
      current_reached at s.last_checked,
      current_reached at s.last_ssh_checked,
    )
