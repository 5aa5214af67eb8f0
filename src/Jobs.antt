-- ===== src/Jobs.antt =====
-- internal/cloudsync/jobs.go: the jobs that the cloud service queues for a device, and the journal
-- that keeps them from running twice.
pub mod Journal
pub mod Once
use sshm.Prelude.{
  ℕ, ℤ, pos, ltb_ℤ, Bool, true, false, not, ◌&&◌, ◌||◌, List, [], ◌∷◌, ◌++◌, Option, none, some,
  if◌then◌else◌, is_nil, ltb, leb, length, every,
}
unfoldable use sshm.Prelude.{◌-ℤ◌}
use sshm.Text.{Text, ◌==◌, codes}
unfoldable use sshm.Text.{text_eq, contains_rune}
use sshm.Map.{Map, is_some}
unfoldable use sshm.Map.{get, put}
use sshm.Result.{Result, ok, err, fail_if, ◌>>◌, ◌>>=◌}

pub record Job : Type 0 where
  pub id : Text
  pub device : Text
  pub action : Text
  pub version : Text
  pub expires : ℤ
  pub signature : Text
  pub status : Text

pub record JobResult : Type 0 where
  pub claim : Text
  pub status : Text
  pub code : Text
  pub count : ℤ
  pub receipt : Text

pub record JobRecord : Type 0 where
  pub result : JobResult
  pub expires : ℤ

-- The outside: the signature of the vault's key over a message, its signing of a receipt, Digest of
-- a user, a device and a signature, and a number in decimal.
pub record Keys : Type 0 where
  pub verifies : Text → Text → Bool
  pub sign : Text → Text
  pub digest : Text → Text → Text → Text
  pub decimal : ℤ → Text

-- The account and the device that poll.
pub record Poller : Type 0 where
  pub user : Text
  pub device_id : Text

abbrev letters_and_digits : Text
letters_and_digits = codes "ABCDEFGHIJKLMNOPQRSTUVWXYZabcdefghijklmnopqrstuvwxyz0123456789"

-- ^[A-Za-z0-9_-]{8,100}$
unfoldable pub job_id : Text → Bool
job_id s =
    leb 8 (length s)
    && leb (length s) 100
    && every (contains_rune (letters_and_digits ++ codes "_-")) s

-- ^[A-Za-z0-9.+_-]{1,80}$
unfoldable pub job_version : Text → Bool
job_version s =
    leb 1 (length s)
    && leb (length s) 80
    && every (contains_rune (letters_and_digits ++ codes ".+_-")) s

-- Job.Message
unfoldable pub message : Keys → Text → Job → Text
message keys user j =
    codes "sshm-job-v1\n"
    ++ (user
        ++ (codes "\n"
            ++ (j.id
                ++ (codes "\n"
                    ++ (j.device
                        ++ (codes "\n"
                            ++ (j.action
                                ++ (codes "\n"
                                    ++ (j.version ++ (codes "\n" ++ keys.decimal j.expires))))))))))

-- The action of a job, with the version that it wants.
unfoldable pub known_action : Job → Bool
unfolding job_version
known_action j =
    if j.action == codes "sync" || j.action == codes "inspect"
    then is_nil j.version
    else j.action == codes "update" && job_version j.version

-- 24*time.Hour and 7*24*time.Hour in milliseconds.
abbrev day_ms : ℤ
day_ms = pos 86_400_000

abbrev pub week_ms : ℤ
week_ms = pos 604_800_000

-- VerifyJob; `now` is the clock in milliseconds.
unfoldable pub verify_job : Keys → Poller → ℤ → Job → Bool
unfolding job_id known_action message ◌-ℤ◌
verify_job keys p now j =
    job_id j.id
    && j.device == p.device_id
    && job_id p.device_id
    && ltb_ℤ now j.expires
    && not (ltb_ℤ day_ms (j.expires -ℤ now))
    && known_action j
    && keys.verifies (message keys p.user j) j.signature

-- JobResult.Message
unfoldable pub result_message : Keys → Poller → Job → JobResult → Text
result_message keys p j r =
    codes "sshm-job-result-v1\n"
    ++ (p.user
        ++ (codes "\n"
            ++ (j.id
                ++ (codes "\n"
                    ++ (p.device_id
                        ++ (codes "\n"
                            ++ (r.status
                                ++ (codes "\n"
                                    ++ (r.code ++ (codes "\n" ++ keys.decimal r.count))))))))))

-- SignJobResult
unfoldable pub sign_job_result : Keys → Poller → Job → JobResult → JobResult
unfolding result_message
sign_job_result keys p j r = record r { receipt = keys.sign (result_message keys p j r) }

pub data JobsError : Type 0 where
  request_failed invalid_queue invalid_journal unreadable_journal save_failed : JobsError

-- The journal as the file keeps it. Writing replaces it as a whole.
pub data JournalFile : Type 0 where
  absent invalid : JournalFile
  holds : Map JobRecord → JournalFile

unfoldable pub load_journal : JournalFile → Result JobsError (Map JobRecord)
load_journal absent = ok []
load_journal invalid = err invalid_journal
load_journal (holds m) = ok m

-- The records that expired more than a week ago are dropped.
unfoldable pub is_stale : ℤ → JobRecord → Bool
unfolding ◌-ℤ◌
is_stale now r = ltb_ℤ r.expires (now -ℤ week_ms)

unfoldable pub prune : ℤ → Map JobRecord → Map JobRecord
unfolding is_stale
prune now [] = []
prune now ((key, r) ∷ m) =
    let rest = prune now m in if is_stale now r then rest else (key, r) ∷ rest

-- What one turn of the loop meets: the clock, RandomID, the two writes of the journal, the replies to
-- the two requests, and what `execute` returns. A crash is a failure of the call that comes next.
pub record Turn : Type 0 where
  pub now : ℤ
  pub random_id : Text
  pub first_save : Bool
  pub claim_reply : Bool
  pub outcome : JobResult
  pub second_save : Bool
  pub report_reply : Bool

-- The journal in memory and in its file, and what has been done so far, the latest first.
pub record Runner : Type 0 where
  pub journal : Map JobRecord
  pub file : JournalFile
  pub executed : List (Text × Job)
  pub claims : List (Text × Text)
  pub reports : List (Text × JobResult)

unfoldable pub new_runner : Runner
new_runner = record { journal = []; file = absent; executed = []; claims = []; reports = [] }

unfoldable pub job_key : Keys → Poller → Job → Text
job_key keys p j = keys.digest p.user p.device_id j.signature

abbrev pub save : Bool → Runner → Runner × Result JobsError (Unit {0})
save done r = if done then (record r { file = holds r.journal }, ok tt) else (r, err save_failed)

-- The next step runs if there was no error.
abbrev pub and_then :
    Runner × Result JobsError (Unit {0})
    → (Runner → Runner × Result JobsError (Unit {0}))
    → Runner × Result JobsError (Unit {0})
and_then (r, err e) next = (r, err e)
and_then (r, ok _) next = next r

abbrev pub interrupted : Turn → JobResult
interrupted t = record {
  claim = t.random_id;
  status = codes "failed";
  code = codes "interrupted";
  count = pos 0;
  receipt = [];
}

-- The record is signed, saved and reported.
unfoldable pub report_job :
    Keys → Poller → Job → Turn → Text → JobRecord → Runner → Runner × Result JobsError (Unit {0})
unfolding put sign_job_result
report_job keys p j t key rec r =
    let signed = record rec { result = sign_job_result keys p j rec.result } in
    and_then (save t.second_save (record r { journal = put key signed r.journal })) (λ r'. (
      record r' { reports = (j.id, signed.result) ∷ r'.reports },
      if t.report_reply then ok tt else err request_failed,
    ))

-- A new job is executed once it is claimed.
unfoldable pub execute_job : Job → Turn → Text → Bool → JobRecord → Runner → Runner × JobRecord
execute_job j t key exists rec r = if exists then (r, rec) else (
  record r { executed = (key, j) ∷ r.executed },
  record rec { result = record t.outcome { claim = rec.result.claim } },
)

unfoldable pub claim_job :
    Keys
    → Poller
    → Job
    → Turn
    → Text
    → Bool
    → JobRecord
    → Runner
    → Runner × Result JobsError (Unit {0})
unfolding report_job execute_job
claim_job keys p j t key exists rec r =
    let asked = record r { claims = (j.id, rec.result.claim) ∷ r.claims } in
    let done = execute_job j t key exists rec asked in
    if t.claim_reply then report_job keys p j t key done.1 done.0 else (asked, err request_failed)

-- A running job without a record of ours belongs to another process.
unfoldable pub unless_running :
    Keys
    → Poller
    → Job
    → Turn
    → Text
    → Bool
    → JobRecord
    → Runner
    → Runner × Result JobsError (Unit {0})
unfolding claim_job text_eq
unless_running keys p j t key exists rec r =
    if j.status == codes "running" && not exists
    then (r, ok tt)
    else claim_job keys p j t key exists rec r

-- The record of the job, which is entered and saved if there is none.
unfoldable pub with_record :
    Keys
    → Poller
    → Job
    → Turn
    → Text
    → Option JobRecord
    → Runner
    → Runner × Result JobsError (Unit {0})
unfolding unless_running put
with_record keys p j t key (some rec) r = unless_running keys p j t key true rec r
with_record keys p j t key none r =
    let rec : JobRecord = record { result = interrupted t; expires = j.expires } in
    and_then (save t.first_save (record r { journal = put key rec r.journal }))
      (λ r'. unless_running keys p j t key false rec r')

-- One turn of the loop of ProcessJobs.
unfoldable pub process_job :
    Keys → Poller → Job → Turn → Runner → Runner × Result JobsError (Unit {0})
unfolding verify_job with_record job_key get
process_job keys p j t r =
    if verify_job keys p t.now j
    then with_record keys p j t (job_key keys p j) (get (job_key keys p j) r.journal) r
    else (r, ok tt)

unfoldable pub process_all :
    Keys → Poller → List (Job × Turn) → Runner → Runner × Result JobsError (Unit {0})
unfolding process_job
process_all keys p [] r = (r, ok tt)
process_all keys p ((j, t) ∷ work) r =
    and_then (process_job keys p j t r) (λ r'. process_all keys p work r')

-- A poll: the clock when the journal is pruned, whether the request is answered and the file read, and the jobs of the
-- answer with the turn of each.
pub record Poll : Type 0 where
  pub now : ℤ
  pub answered : Bool
  pub file_reads : Bool
  pub work : List (Job × Turn)

process_queue :
    Keys
    → Poller
    → Poll
    → Runner
    → Result JobsError (Map JobRecord)
    → Runner × Result JobsError (Unit {0})
unfolding process_all prune
process_queue keys p poll r (err e) = (r, err e)
process_queue keys p poll r (ok m) =
    process_all keys p poll.work (record r { journal = prune poll.now m })

-- ProcessJobs
unfoldable pub process_jobs : Keys → Poller → Poll → Runner → Runner × Result JobsError (Unit {0})
unfolding process_queue load_journal
process_jobs keys p poll r =
    if not poll.answered
    then (r, err request_failed)
    else if ltb 4 (length poll.work)
    then (r, err invalid_queue)
    else if is_nil poll.work
    then (r, ok tt)
    else process_queue keys p poll r
        (if poll.file_reads then load_journal r.file else err unreadable_journal)

-- The polls of a device, one after the other, each whatever became of the last.
unfoldable pub poll_all : Keys → Poller → List Poll → Runner → Runner
unfolding process_jobs
poll_all keys p [] r = r
poll_all keys p (poll ∷ polls) r = poll_all keys p polls (process_jobs keys p poll r).0
