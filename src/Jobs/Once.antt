-- ===== src/Jobs/Once.antt =====
-- What internal/cloudsync/jobs.go has executed, whatever fails and whenever a run ends.
use sshm.Prelude.{
  ℤ, ltb_ℤ, ◌≤ℤ◌, Bool, true, false, not, ◌&&◌, List, [], ◌∷◌, none, some, ◌≡◌, ◌≢◌, refl, arith,
  sym, ap, ◌∙◌, if◌then◌else◌, Bool-cases, Option-cases, inl, inr, ◌⊎◌, length, ltb, is_nil,
}
use sshm.Text.{Text, ◌==◌, codes}
use sshm.Map.{Map, get, put}
use sshm.Map.Laws.{get-put_self, put-IsOrdered, IsOrdered}
use sshm.Result.{Result, ok, err}
use sshm.Jobs.{
  Job, JobRecord, interrupted, Keys, Poller, verify_job, JournalFile, absent, invalid, holds,
  JobsError, load_journal, prune, Turn, Runner, job_key, save, new_runner, unreadable_journal,
  and_then, report_job, execute_job, claim_job, unless_running, with_record, process_job,
  process_all, Poll, process_queue, process_jobs, poll_all,
}
use sshm.Jobs.Journal.{
  Log, Present, IsKept, Fresh, IsOnce, IsKept-put, prune-IsOrdered, IsKept-prune, IsKept-later,
}

verify-expires :
    (keys : Keys) (p : Poller) (now : ℤ) (j : Job)
    → verify_job keys p now j ≡ true
    → ltb_ℤ now j.expires ≡ true
unfolding verify_job
verify-expires keys p now j h = ground arith

some-injective : {a b : JobRecord} → some a ≡ some b → a ≡ b
some-injective e = cc e

loaded-injective :
    {a b : Map JobRecord} → ◌≡◌ {A = Result JobsError (Map JobRecord)} (ok a) (ok b) → a ≡ b
loaded-injective e = cc e

read_or_not :
    (reads : Bool) (file : JournalFile) (m : Map JobRecord)
    → (if reads then load_journal file else err unreadable_journal) ≡ ok m
    → load_journal file ≡ ok m
read_or_not true file m e = e
read_or_not false file m e = cc e

-- Jobs that verify under the same key expire at the same time: a signature, which the key is the
-- digest of, belongs to one message.
abbrev pub IsUnforgeable : Keys → Poller → Type 0
IsUnforgeable keys p =
    (s t : ℤ) (i j : Job)
    → verify_job keys p s i ≡ true
    → verify_job keys p t j ≡ true
    → job_key keys p i ≡ job_key keys p j
    → i.expires ≡ j.expires

-- The clock does not go back during a poll, nor from one poll to the next.
abbrev IsTimely : ℤ → List (Job × Turn) → Type 0
IsTimely h [] = Unit
IsTimely h ((j, t) ∷ work) = (h ≤ℤ t.now) × IsTimely h work

abbrev pub IsPunctual : ℤ → List Poll → Type 0
IsPunctual h [] = Unit
IsPunctual h (poll ∷ polls) =
    (h ≤ℤ poll.now) × IsTimely poll.now poll.work × IsPunctual poll.now polls

-- No job of the log carries the signature.
abbrev LacksSignature : Text → Log → Type 0
LacksSignature signature [] = Unit
LacksSignature signature ((_, i) ∷ log) = (i.signature ≢ signature) × LacksSignature signature log

-- No two jobs of the log carry the same signature, letter by letter.
abbrev pub IsDistinct : Log → Type 0
IsDistinct [] = Unit
IsDistinct ((_, j) ∷ log) = LacksSignature j.signature log × IsDistinct log

module _ (keys : Keys) (p : Poller) (unforgeable : IsUnforgeable keys p) where
  IsGenuine : Log → Type 0
  IsGenuine [] = Unit
  IsGenuine ((key, j) ∷ log) =
      (key ≡ job_key keys p j) × ((t : ℤ) × (verify_job keys p t j ≡ true)) × IsGenuine log

  Fresh-of_absent :
      (h now : ℤ) (m : Map JobRecord) (j : Job) (log : Log)
      → h ≤ℤ now
      → verify_job keys p now j ≡ true
      → get (job_key keys p j) m ≡ none
      → IsGenuine log
      → IsKept h m log
      → Fresh (job_key keys p j) log
  unfolding IsGenuine
  Fresh-of_absent h now m j [] le good none_there g k = tt
  Fresh-of_absent h now m j ((i, old) ∷ log) le good none_there (named, signed, g) (here, k) =
      (differs here, Fresh-of_absent h now m j log le good none_there g k)
    where
      differs : Present m i old ⊎ (old.expires ≤ℤ h) → i ≢ job_key keys p j
      differs (inl (rec, found, e)) same = cc (rw same at found, none_there)
      differs (inr late) same =
          let e = unforgeable signed.0 now old j signed.1 good (sym named ∙ same) in
          ground (arith, verify-expires keys p now j good, late, le, e)

  Fresh-LacksSignature :
      (j : Job) (log : Log)
      → Fresh (job_key keys p j) log
      → IsGenuine log
      → LacksSignature j.signature log
  unfolding IsGenuine job_key
  Fresh-LacksSignature j [] fresh g = tt
  Fresh-LacksSignature j ((key, i) ∷ log) (apart, fresh) (named, signed, g) = (
    (λ same. apart (named ∙ ap (keys.digest p.user p.device_id) same)),
    Fresh-LacksSignature j log fresh g,
  )

  IsOnce-IsDistinct : (log : Log) → IsOnce log → IsGenuine log → IsDistinct log
  unfolding IsGenuine
  IsOnce-IsDistinct [] once g = tt
  IsOnce-IsDistinct ((key, j) ∷ log) (fresh, once) (named, signed, g) =
      (Fresh-LacksSignature j log (rw named at fresh) g, IsOnce-IsDistinct log once g)

  FileKept : ℤ → JournalFile → Log → Type 0
  FileKept h absent log = IsKept h [] log
  FileKept h invalid log = Unit
  FileKept h (holds m) log = IsOrdered m × IsKept h m log

  -- Between the polls.
  record Good (h : ℤ) (r : Runner) : Type 0 where
    once : IsOnce r.executed
    genuine : IsGenuine r.executed
    file_kept : FileKept h r.file r.executed

  -- During a poll.
  record Mid (h : ℤ) (r : Runner) : Type 0 where
    good : Good h r
    ordered : IsOrdered r.journal
    kept : IsKept h r.journal r.executed

  save-Mid : (h : ℤ) (done : Bool) (r : Runner) → Mid h r → Mid h (save done r).0
  unfolding FileKept
  save-Mid h true r m = record {
    good = record { once = m.good.once; genuine = m.good.genuine; file_kept = (m.ordered, m.kept) };
    ordered = m.ordered;
    kept = m.kept;
  }
  save-Mid h false r m = m

  put-Mid :
      (h : ℤ) (key : Text) (rec : JobRecord) (r : Runner)
      → ((old : JobRecord) → get key r.journal ≡ some old → rec.expires ≡ old.expires)
      → Mid h r
      → Mid h (record r { journal = put key rec r.journal })
  put-Mid h key rec r same m = record {
    good = record { once = m.good.once; genuine = m.good.genuine; file_kept = m.good.file_kept };
    ordered = put-IsOrdered key rec r.journal m.ordered;
    kept = IsKept-put h r.journal key rec r.executed same m.kept;
  }

  and_then-Mid :
      (h : ℤ) (x : Runner × Result JobsError (Unit {0}))
      (next : Runner → Runner × Result JobsError (Unit {0}))
      → Mid h x.0
      → (Mid h x.0 → Mid h (next x.0).0)
      → Mid h (and_then x next).0
  and_then-Mid h (r, err e) next m f = m
  and_then-Mid h (r, ok _) next m f = f m

  report_job-Mid :
      (h : ℤ) (j : Job) (t : Turn) (key : Text) (rec : JobRecord) (r : Runner)
      → ((old : JobRecord) → get key r.journal ≡ some old → rec.expires ≡ old.expires)
      → Mid h r
      → Mid h (report_job keys p j t key rec r).0
  unfolding report_job
  report_job-Mid h j t key rec r same m =
      and_then-Mid h (save t.second_save _) _
        (save-Mid h t.second_save _ (put-Mid h key _ r same m))
        (λ m'. record {
          good = record {
            once = m'.good.once;
            genuine = m'.good.genuine;
            file_kept = m'.good.file_kept;
          };
          ordered = m'.ordered;
          kept = m'.kept;
        })

  claimed-Mid :
      (h : ℤ) (asked : List (Text × Text)) (r : Runner)
      → Mid h r
      → Mid h (record r { claims = asked })
  claimed-Mid h asked r m = record {
    good = record { once = m.good.once; genuine = m.good.genuine; file_kept = m.good.file_kept };
    ordered = m.ordered;
    kept = m.kept;
  }

  -- A job with a record is reported again and not executed.
  claim_old-Mid :
      (h : ℤ) (j : Job) (t : Turn) (key : Text) (rec : JobRecord) (r : Runner)
      → get key r.journal ≡ some rec
      → Mid h r
      → Mid h (claim_job keys p j t key true rec r).0
  unfolding claim_job execute_job
  claim_old-Mid h j t key rec r found m = elim (Bool-cases t.claim_reply) [
    | inl yes_reply ↦ rw yes_reply (
        report_job-Mid h j t key rec _
          (λ old there. ap (λ x. x.expires) (some-injective (sym found ∙ there)))
          (claimed-Mid h _ r m))
    | inr no_reply ↦ rw no_reply (claimed-Mid h _ r m)
  ]

  executed-Mid :
      (h : ℤ) (j : Job) (now : ℤ) (asked : List (Text × Text)) (rec : JobRecord) (r : Runner)
      → verify_job keys p now j ≡ true
      → Fresh (job_key keys p j) r.executed
      → get (job_key keys p j) r.journal ≡ some rec
      → rec.expires ≡ j.expires
      → r.file ≡ holds r.journal
      → Mid h r
      → Mid h (record r { claims = asked; executed = (job_key keys p j, j) ∷ r.executed })
  unfolding IsGenuine FileKept
  executed-Mid h j now asked rec r signed fresh found e saved m = record {
    good = record {
      once = (fresh, m.good.once);
      genuine = (refl, (now, signed), m.good.genuine);
      file_kept = rw saved (m.ordered, (inl (rec, found, e), m.kept));
    };
    ordered = m.ordered;
    kept = (inl (rec, found, e), m.kept);
  }

  claim_new-Mid :
      (h : ℤ) (j : Job) (t : Turn) (rec : JobRecord) (r : Runner)
      → verify_job keys p t.now j ≡ true
      → Fresh (job_key keys p j) r.executed
      → get (job_key keys p j) r.journal ≡ some rec
      → rec.expires ≡ j.expires
      → r.file ≡ holds r.journal
      → Mid h r
      → Mid h (claim_job keys p j t (job_key keys p j) false rec r).0
  unfolding claim_job execute_job
  claim_new-Mid h j t rec r signed fresh found e saved m = elim (Bool-cases t.claim_reply) [
    | inl yes_reply ↦ rw yes_reply (
        report_job-Mid h j t (job_key keys p j)
          (record rec { result = record t.outcome { claim = rec.result.claim } }) _
          (λ old there. ap (λ x. x.expires) (some-injective (sym found ∙ there)))
          (executed-Mid h j t.now _ rec r signed fresh found e saved m))
    | inr no_reply ↦ rw no_reply (claimed-Mid h _ r m)
  ]

  unless_running-Mid :
      (h : ℤ) (j : Job) (t : Turn) (key : Text) (exists : Bool) (rec : JobRecord) (r : Runner)
      → Mid h r
      → Mid h (claim_job keys p j t key exists rec r).0
      → Mid h (unless_running keys p j t key exists rec r).0
  unfolding unless_running
  unless_running-Mid h j t key exists rec r m claimed =
      elim (Bool-cases (j.status == codes "running" && not exists)) [
        | inl other ↦ rw other m
        | inr ours ↦ rw ours claimed
      ]

  fresh_record : Job → Turn → JobRecord
  fresh_record j t = record { result = interrupted t; expires = j.expires }

  entered : Job → Turn → Runner → Runner
  unfolding fresh_record
  entered j t r = record r { journal = put (job_key keys p j) (fresh_record j t) r.journal }

  entered-Mid :
      (h : ℤ) (j : Job) (t : Turn) (r : Runner)
      → get (job_key keys p j) r.journal ≡ none
      → Mid h r
      → Mid h (entered j t r)
  unfolding entered
  entered-Mid h j t r new m =
      put-Mid h (job_key keys p j) (fresh_record j t) r (λ old there. cc (there, new)) m

  run_new-Mid :
      (h : ℤ) (j : Job) (t : Turn) (r : Runner)
      → h ≤ℤ t.now
      → verify_job keys p t.now j ≡ true
      → get (job_key keys p j) r.journal ≡ none
      → Mid h r
      → Mid h
          (unless_running keys p j t
            (job_key keys p j)
            false
            (fresh_record j t)
            (save true (entered j t r)).0).0
  unfolding entered
  run_new-Mid h j t r le signed new m =
      let m' = save-Mid h true (entered j t r) (entered-Mid h j t r new m) in
      let fresh =
        Fresh-of_absent h t.now r.journal j r.executed le signed new m.good.genuine m.kept in
      let found = get-put_self (job_key keys p j) (fresh_record j t) r.journal in
      unless_running-Mid h j t (job_key keys p j) false (fresh_record j t) _ m'
        (claim_new-Mid h j t (fresh_record j t) _ signed fresh found refl refl m')

  process_job-Mid :
      (h : ℤ) (j : Job) (t : Turn) (r : Runner)
      → h ≤ℤ t.now
      → Mid h r
      → Mid h (process_job keys p j t r).0
  unfolding process_job with_record entered
  process_job-Mid h j t r le m = elim (Bool-cases (verify_job keys p t.now j)) [
    | inr bad ↦ rw bad m
    | inl signed ↦ elim (Option-cases (get (job_key keys p j) r.journal)) [
      | inr (rec, found) ↦
          rw (signed, found)
            (unless_running-Mid h j t (job_key keys p j) true rec r m
              (claim_old-Mid h j t (job_key keys p j) rec r found m))
      | inl new ↦
          rw (signed, new)
            (elim (Bool-cases t.first_save) [
              | inr lost ↦ rw lost (entered-Mid h j t r new m)
              | inl saved ↦ rw saved (run_new-Mid h j t r le signed new m)
            ])
    ]
  ]

  process_all-Mid :
      (h : ℤ) (work : List (Job × Turn)) (r : Runner)
      → IsTimely h work
      → Mid h r
      → Mid h (process_all keys p work r).0
  unfolding process_all
  process_all-Mid h [] r timely m = m
  process_all-Mid h ((j, t) ∷ work) r timely m =
      and_then-Mid h (process_job keys p j t r) _ (process_job-Mid h j t r timely.0 m)
        (λ m'. process_all-Mid h work _ timely.1 m')

  file-later :
      (h now : ℤ) (file : JournalFile) (log : Log)
      → h ≤ℤ now
      → FileKept h file log
      → FileKept now file log
  unfolding FileKept
  file-later h now absent log le k = IsKept-later h now [] log le k
  file-later h now invalid log le k = tt
  file-later h now (holds m) log le (o, k) = (o, IsKept-later h now m log le k)

  Good-later : (h now : ℤ) (r : Runner) → h ≤ℤ now → Good h r → Good now r
  Good-later h now r le g = record {
    once = g.once;
    genuine = g.genuine;
    file_kept = file-later h now r.file r.executed le g.file_kept;
  }

  loaded-Mid :
      (h now : ℤ) (r : Runner) (m : Map JobRecord)
      → h ≤ℤ now
      → load_journal r.file ≡ ok m
      → Good h r
      → Mid now (record r { journal = prune now m })
  unfolding FileKept load_journal
  loaded-Mid h now r m le loaded g =
      let file = from r.file loaded g.file_kept in
      record {
        good = record {
          once = g.once;
          genuine = g.genuine;
          file_kept = file-later h now r.file r.executed le g.file_kept;
        };
        ordered = prune-IsOrdered now m file.0;
        kept = IsKept-prune h now m r.executed le file.0 file.1;
      }
    where
      from :
          (file : JournalFile)
          → load_journal file ≡ ok m
          → FileKept h file r.executed
          → IsOrdered m × IsKept h m r.executed
      from absent e k = rw (← loaded-injective e) (tt, k)
      from invalid e k = cc e
      from (holds n) e k = rw (← loaded-injective e) k

  process_queue-Good :
      (h : ℤ) (poll : Poll) (r : Runner) (loaded : Result JobsError (Map JobRecord))
      → h ≤ℤ poll.now
      → IsTimely poll.now poll.work
      → ((m : Map JobRecord) → loaded ≡ ok m → load_journal r.file ≡ ok m)
      → Good h r
      → Good poll.now (process_queue keys p poll r loaded).0
  unfolding process_queue
  process_queue-Good h poll r (err e) le timely known g = Good-later h poll.now r le g
  process_queue-Good h poll r (ok m) le timely known g =
      (process_all-Mid poll.now poll.work _ timely
        (loaded-Mid h poll.now r m le (known m refl) g)).good

  process_jobs-Good :
      (h : ℤ) (poll : Poll) (r : Runner)
      → h ≤ℤ poll.now
      → IsTimely poll.now poll.work
      → Good h r
      → Good poll.now (process_jobs keys p poll r).0
  unfolding process_jobs
  process_jobs-Good h poll r le timely g = elim (Bool-cases (not poll.answered)) [
    | inl lost ↦ rw lost (Good-later h poll.now r le g)
    | inr answered ↦ elim (Bool-cases (ltb 4 (length poll.work))) [
      | inl long ↦ rw (answered, long) (Good-later h poll.now r le g)
      | inr short ↦ elim (Bool-cases (is_nil poll.work)) [
        | inl empty ↦ rw (answered, short, empty) (Good-later h poll.now r le g)
        | inr some_work ↦
            rw (answered, short, some_work)
              (process_queue-Good h poll r _ le timely (read_or_not poll.file_reads r.file) g)
      ]
    ]
  ]

  poll_all-Good :
      (h : ℤ) (polls : List Poll) (r : Runner)
      → IsPunctual h polls
      → Good h r
      → (now : ℤ) × Good now (poll_all keys p polls r)
  unfolding poll_all
  poll_all-Good h [] r on_time g = (h, g)
  poll_all-Good h (poll ∷ polls) r on_time g =
      poll_all-Good poll.now polls _ on_time.2 (process_jobs-Good h poll r on_time.0 on_time.1 g)

  -- However often the device polls, and wherever its calls fail or its process dies: of what was
  -- executed, no two jobs carry the same signature text, and the keys of the journal, digests of these
  -- texts, are all different. The clock must not go back, and jobs that verify under one key must
  -- expire at the same time. A second spelling of a signature, if it verifies, counts as another.
  pub executed-IsOnce :
      (h : ℤ) (polls : List Poll)
      → IsPunctual h polls
      → IsDistinct (poll_all keys p polls new_runner).executed
        × IsOnce (poll_all keys p polls new_runner).executed
  unfolding IsGenuine FileKept new_runner
  executed-IsOnce h polls on_time =
      let g =
        (poll_all-Good h polls new_runner on_time
          (record { once = tt; genuine = tt; file_kept = tt })).1 in
      (IsOnce-IsDistinct _ g.once g.genuine, g.once)
