-- ===== src/Tests/Polls.antt =====
-- A device that polls twice for one job, for one of two spellings, and for one that runs elsewhere.
use sshm.Prelude.{
  ℕ, ◌+◌, ◌*◌, ℤ, pos, negsuc, true, false, [], ◌∷◌, ◌++◌, ◌≡◌, ◌≢◌, refl, arith, ap, sym, ◌∙◌,
  and-eq-true, take,
}
use sshm.Text.{Text, codes, ◌==◌, text_eq, text_eq_iff, contains_rune}
use sshm.Text.Order.{text_ltb}
use sshm.Map.{get, put}
use sshm.Jobs.{
  Job, JobResult, Keys, Poller, Turn, Poll, verify_job, job_key, message, new_runner, poll_all,
  process_job, known_action, job_id, job_version,
}
use sshm.Jobs.Journal.{IsOnce}
use sshm.Jobs.Once.{IsUnforgeable, IsDistinct, executed-IsOnce}

-- The last code point of a text, which is `c` if there is none.
ends : ℕ → Text → ℕ
ends c [] = c
ends c (d ∷ s) = ends d s

ends-append : (c : ℕ) (s t : Text) → ends c (s ++ t) ≡ ends (ends c s) t
unfolding ends
ends-append c [] t = refl
ends-append c (d ∷ s) t = ends-append d s t

abbrev number : ℤ → ℕ
number (pos n) = 2 * n
number (negsuc n) = 2 * n + 1

even_or_odd : (m n : ℕ) → 2 * m ≢ 2 * n + 1
even_or_odd m n h = omega (arith, h)

number-injective : (a b : ℤ) → number a ≡ number b → a ≡ b
number-injective (pos m) (pos n) h = ap pos (omega (arith, h))
number-injective (pos m) (negsuc n) h = elim (even_or_odd m n h) [ ]
number-injective (negsuc m) (pos n) h = elim (even_or_odd n m (sym h)) [ ]
number-injective (negsuc m) (negsuc n) h = ap negsuc (omega (arith, h))

-- A number is one code point, and the signature of a message is its last code point.
abbrev keys : Keys
keys = record {
  verifies = λ text signature. (ends 0 text ∷ []) == signature;
  sign = λ text. text;
  digest = λ user device signature. signature;
  decimal = λ n. number n ∷ [];
}

abbrev poller : Poller
poller = record { user = codes "ann"; device_id = codes "device-1" }

ends-message : (j : Job) → ends 0 (message keys poller.user j) ≡ number j.expires
unfolding ends message
ends-message j =
    rw (ends-append _ j.id, ends-append _ j.device, ends-append _ j.action, ends-append _ j.version)
      refl

verified :
    (t : ℤ) (j : Job) → verify_job keys poller t j ≡ true → (number j.expires ∷ []) ≡ j.signature
unfolding verify_job
verified t j h =
    rw (← ends-message j)
      ((text_eq_iff (ends 0 (message keys poller.user j) ∷ []) j.signature).0 (and-eq-true _ _ h).1)

unforgeable : IsUnforgeable keys poller
unfolding job_key
unforgeable s t i j hi hj same =
    number-injective i.expires j.expires (cc (verified s i hi ∙ same ∙ sym (verified t j hj)))

abbrev sync_job : Job
sync_job = record {
  id = codes "job-0001";
  device = codes "device-1";
  action = codes "sync";
  version = [];
  expires = pos 1000;
  signature = 2000 ∷ [];
  status = codes "queued";
}

abbrev done : JobResult
done = record { claim = []; status = codes "succeeded"; code = []; count = pos 3; receipt = [] }

abbrev calm_turn : Turn
calm_turn = record {
  now = pos 10;
  random_id = codes "claim-01";
  first_save = true;
  claim_reply = true;
  outcome = done;
  second_save = true;
  report_reply = false;
}

abbrev reported_turn : Turn
reported_turn = record calm_turn { report_reply = true }

abbrev one_poll : Poll
one_poll = record {
  now = pos 10;
  answered = true;
  file_reads = true;
  work = (sync_job, calm_turn) ∷ [];
}

computing : Unit {0}
unfolding ends message verify_job job_key poll_all new_runner process_job known_action job_id
    job_version get put text_eq text_ltb contains_rune
computing = tt

sync_job-verified : verify_job keys poller (pos 10) sync_job ≡ true
unfolding computing
sync_job-verified = refl

-- The report of the first poll is lost, and the second poll sends it again.
executed_once_test :
    (poll_all keys poller (one_poll ∷ one_poll ∷ []) new_runner).executed
    ≡ (2000 ∷ [], sync_job) ∷ []
unfolding computing
executed_once_test = refl

executed-IsOnce_example :
    IsDistinct (poll_all keys poller (one_poll ∷ one_poll ∷ []) new_runner).executed
    × IsOnce (poll_all keys poller (one_poll ∷ one_poll ∷ []) new_runner).executed
executed-IsOnce_example =
    executed-IsOnce keys poller unforgeable (pos 10) (one_poll ∷ one_poll ∷ [])
      ((omega arith, (omega arith, tt), (omega arith, (omega arith, tt), tt)))

-- A verification that, like a lenient decoder, takes no notice of how a signature ends.
abbrev lenient : Keys
lenient = record keys { verifies = λ text signature. (ends 0 text ∷ []) == take 1 signature }

abbrev respelled : Job
respelled = record sync_job { signature = 2000 ∷ 10 ∷ [] }

-- One signed message under two spellings of its signature is executed under both.
respelled_runs_again :
    (poll_all lenient poller
      (record one_poll { work = (sync_job, reported_turn) ∷ (respelled, reported_turn) ∷ [] } ∷ [])
      new_runner).executed
    ≡ (2000 ∷ 10 ∷ [], respelled) ∷ (2000 ∷ [], sync_job) ∷ []
unfolding computing take
respelled_runs_again = refl

abbrev running_job : Job
running_job = record sync_job {
  status = codes "running";
  signature = 2002 ∷ [];
  expires = pos 1001;
}

abbrev refused_turn : Turn
refused_turn = record calm_turn { claim_reply = false }

abbrev two_jobs : Turn → Poll
two_jobs t = record one_poll { work = (running_job, t) ∷ (sync_job, reported_turn) ∷ [] }

-- The first poll leaves a job alone that runs elsewhere, but has recorded it: the second one asks for
-- it.
running_job_is_claimed :
    (poll_all keys poller (two_jobs calm_turn ∷ two_jobs refused_turn ∷ []) new_runner).claims
    ≡ (codes "job-0001", codes "claim-01") ∷ (codes "job-0001", codes "claim-01") ∷ []
unfolding computing
running_job_is_claimed = refl

-- The refusal ends the poll: a job that is queued behind the other one is never executed.
queue_is_blocked :
    (poll_all keys poller
      (record one_poll { work = (running_job, calm_turn) ∷ [] } ∷ two_jobs refused_turn ∷ [])
      new_runner).executed
    ≡ []
unfolding computing
queue_is_blocked = refl
