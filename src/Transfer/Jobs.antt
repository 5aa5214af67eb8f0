-- ===== src/Transfer/Jobs.antt =====
-- internal/mcp/transfer_core.go: the table of jobs, whose every operation runs under its mutex.
use sshm.Prelude.{ℕ, false, [], Option, none, some, ◌≡◌, ◌∙◌, refl, ◌+◌, if◌then◌else◌}
use sshm.Text.{Text, ◌==◌, codes}
use sshm.Map.{Map, get, put}
use sshm.Map.Laws.{get-put, get-put_self, text_eq_refl}
use sshm.Result.{Result, ok, err}
use sshm.Time.{Time}
use sshm.Transfer.{TransferResult}

pub record TransferJob : Type 0 where
  pub id : Text
  pub kind : Text
  pub alias : Text
  pub remote_path : Text
  pub local_path : Text
  pub status : Text
  pub error : Text
  pub bytes_done : ℕ
  pub bytes_total : ℕ
  pub resumed_from : ℕ
  pub sha256 : Text
  pub started_at : Text
  pub finished_at : Text

pub record TransferManager : Type 0 where
  pub next : ℕ
  pub jobs : Map TransferJob

-- fmt.Sprintf("tx-%d-%d", …) and Format(time.RFC3339), of the library.
pub record Formats : Type 0 where
  pub job_id : Time → ℕ → Text
  pub rfc3339 : Time → Text

-- The job that start enters.
unfoldable pub new_job : Formats → Time → Text → Text → Text → Text → Text → TransferJob
new_job formats now id kind alias remote_path local_path = record {
  id = id;
  kind = kind;
  alias = alias;
  remote_path = remote_path;
  local_path = local_path;
  status = codes "running";
  error = [];
  bytes_done = 0;
  bytes_total = 0;
  resumed_from = 0;
  sha256 = [];
  started_at = formats.rfc3339 now;
  finished_at = [];
}

-- start
unfoldable pub start :
    Formats → Time → Text → Text → Text → Text → TransferManager → TransferManager × Text
unfolding new_job put
start formats now kind alias remote_path local_path m =
    let id = formats.job_id now (m.next + 1) in
    (
      record m {
        next = m.next + 1;
        jobs = put id (new_job formats now id kind alias remote_path local_path) m.jobs;
      },
      id,
    )

change_job :
    (TransferJob → TransferJob) → Text → Option TransferJob → TransferManager → TransferManager
unfolding put
change_job f id none m = m
change_job f id (some job) m = record m { jobs = put id (f job) m.jobs }

-- update
unfoldable pub update_job : Text → (TransferJob → TransferJob) → TransferManager → TransferManager
unfolding change_job get
update_job id f m = change_job f id (get id m.jobs) m

-- The fields that finish sets; an error is its message.
unfoldable pub finished : Formats → Time → Result Text TransferResult → TransferJob → TransferJob
finished formats now (err message) job = record job {
  finished_at = formats.rfc3339 now;
  status = codes "failed";
  error = message;
}
finished formats now (ok res) job = record job {
  finished_at = formats.rfc3339 now;
  status = codes "completed";
  bytes_done = res.bytes_total;
  bytes_total = res.bytes_total;
  resumed_from = res.resumed_from;
  sha256 = res.sha256;
}

-- finish
unfoldable pub finish :
    Formats → Time → Text → Result Text TransferResult → TransferManager → TransferManager
unfolding update_job finished
finish formats now id outcome m = update_job id (finished formats now outcome) m

-- snapshot
unfoldable pub snapshot : Text → TransferManager → Option TransferJob
unfolding get
snapshot id m = get id m.jobs

-- Updates of a job by the progress of its copy.
snapshot-update_job :
    (id j : Text) (f : TransferJob → TransferJob) (m : TransferManager) (job : TransferJob)
    → snapshot id m ≡ some job
    → snapshot j (update_job id f m) ≡ (if id == j then some (f job) else snapshot j m)
unfolding snapshot update_job change_job
snapshot-update_job id j f m job h = rw (h, get-put) refl

-- A job that is started is seen as running until it is finished, and from then on with its
-- outcome, failed with the message of an error or completed with the result; no other job is
-- changed by either.
finish-start :
    (formats : Formats) (now later : Time) (kind alias remote_path local_path : Text)
    (outcome : Result Text TransferResult) (m : TransferManager) (j : Text)
    → (let started = start formats now kind alias remote_path local_path m in
        let job = new_job formats now started.1 kind alias remote_path local_path in
        (snapshot started.1 started.0 ≡ some job)
        × (snapshot started.1 (finish formats later started.1 outcome started.0)
            ≡ some (finished formats later outcome job))
        × ((started.1 == j) ≡ false
            → (snapshot j (finish formats later started.1 outcome started.0) ≡ snapshot j m)))
unfolding start finish snapshot
finish-start formats now later kind alias remote_path local_path outcome m j =
    let id = formats.job_id now (m.next + 1) in
    let job = new_job formats now id kind alias remote_path local_path in
    let f = finished formats later outcome in
    let seen = get-put_self id job m.jobs in
    let m' = (start formats now kind alias remote_path local_path m).0 in
    (
      seen,
      snapshot-update_job id id f m' job seen ∙ rw (text_eq_refl id) refl,
      λ e. snapshot-update_job id j f m' job seen ∙ rw (e, get-put j id job m.jobs, e) refl,
    )
