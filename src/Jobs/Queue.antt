-- ===== src/Jobs/Queue.antt =====
-- backend/src/reconcileflow/persistence/repositories.py, BackgroundJobRepository: creation, leases,
-- progress and cancellation; Restart holds recovery and manual retries.
mod Restart
unfoldable pub use Restart.*
use reconcileflow_ai.Prelude.{
  ℕ, ◌+◌, Bool, true, false, not, ◌&&◌, Option, none, some, List, [], ◌∷◌, ◌++◌, if◌then◌else◌,
  ◌==◌, ltb, leb, any, filter, find?, length, take, Text, codes, text_eq, strip,
}
use reconcileflow_ai.Jobs.Records.{
  Job, JobStatus, JobPriority, EventType, no_details, Run, RunStatus, is_leased, is_queued,
}
use reconcileflow_ai.Jobs.Store.{
  Store, Result, ok, value_error, record_not_found, persistence_conflict, invalid_status_transition,
  ◌>>=◌, ◌>>◌, require, or_raise, get, save, put_run, append_event,
}

-- The new record: the database chooses `id` and the clock `created_at`, and the columns have defaults.
unfoldable pub new_job : ℕ → ℕ → ℕ → ℕ → ℕ → ℕ → ℕ → JobPriority → Job
new_job id now organization_id run_id scheduled_at max_attempts timeout_seconds priority = record {
  id = id;
  organization_id = organization_id;
  run_id = run_id;
  status = JobStatus.queued;
  priority = priority;
  progress_percentage = 0;
  status_message = none;
  attempt_count = 0;
  total_attempt_count = 0;
  manual_retry_count = 0;
  max_attempts = max_attempts;
  timeout_seconds = timeout_seconds;
  deadline_at = none;
  last_manual_retry_at = none;
  scheduled_at = scheduled_at;
  started_at = none;
  completed_at = none;
  cancellation_requested_at = none;
  retry_at = none;
  claimed_by = none;
  heartbeat_at = none;
  failure_code = none;
  failure_message = none;
  created_at = now;
}

-- `create`, with the identifier and the clock of the new record.
unfoldable pub create : Store → ℕ → ℕ → ℕ → ℕ → ℕ → ℕ → ℕ → JobPriority → Result (Store × Job)
unfolding new_job
create s id now organization_id run_id scheduled_at max_attempts timeout_seconds priority = do
  require (leb 1 max_attempts) value_error
  require (leb 30 timeout_seconds) value_error
  require (any (λ r. r.id == run_id && r.organization_id == organization_id) s.runs)
      record_not_found
  require (not (any (λ j. j.run_id == run_id) s.jobs)) persistence_conflict
  let job : Job =
      new_job id now organization_id run_id scheduled_at max_attempts timeout_seconds priority
  ok (
    append_event (record s { jobs = s.jobs ++ job ∷ [] }) job EventType.job_queued now
        (record no_details { priority = some priority; status = some JobStatus.queued }),
    job,
  )

-- `record.claimed_by != worker_id` is false
abbrev pub owned_by : Text → Job → Bool
owned_by worker_id job = elim job.claimed_by [ none ↦ false | some w ↦ text_eq w worker_id ]

unfoldable pub heartbeat : Store → ℕ → ℕ → Text → ℕ → Result (Store × Job)
heartbeat s job_id organization_id worker_id at = do
  job ← get s job_id organization_id
  require (is_leased job.status && owned_by worker_id job) invalid_status_transition
  let job' : Job = record job { heartbeat_at = some at }
  ok (save s job', job')

-- `text.strip()[:limit] if text else None`
unfoldable pub clipped : ℕ → Option Text → Option Text
clipped limit none = none
clipped limit (some []) = none
clipped limit (some (c ∷ t)) = some (take limit (strip (c ∷ t)))

unfoldable pub update_progress : Store → ℕ → ℕ → ℕ → Option Text → ℕ → Result (Store × Job)
update_progress s job_id organization_id progress message at = do
  require (leb progress 100) value_error
  job ← get s job_id organization_id
  require (is_leased job.status) invalid_status_transition
  let job' : Job = record job {
    progress_percentage = progress;
    status_message = clipped 500 message;
  }
  ok (
    append_event (save s job') job' EventType.job_progress_updated at
        (record no_details { progress_percentage = some progress; status = some job.status }),
    job',
  )

-- The change that a request makes: a queued job ends, a running one is told to.
unfoldable pub cancel_job : Job → ℕ → Job
cancel_job job at =
    if is_queued job.status
    then record job {
      cancellation_requested_at = some at;
      status = JobStatus.cancelled;
      completed_at = some at;
      status_message = some (codes "Cancelled before processing");
      deadline_at = none;
    }
    else record job {
      cancellation_requested_at = some at;
      status = JobStatus.cancel_requested;
      status_message = some (codes "Cancellation requested");
    }

-- `status in {QUEUED, RUNNING}`
abbrev pub may_cancel : JobStatus → Bool
may_cancel JobStatus.queued = true
may_cancel JobStatus.running = true
may_cancel _ = false

unfoldable pub request_cancellation : Store → ℕ → ℕ → ℕ → Result (Store × Job)
unfolding cancel_job
request_cancellation s job_id organization_id at = do
  job ← get s job_id organization_id
  require (may_cancel job.status) invalid_status_transition
  let job' : Job = cancel_job job at
  let asked : Store =
      append_event s job EventType.job_cancellation_requested at
        (record no_details { status = some job.status })
  let saved : Store = save asked job'
  ok (
    if is_queued job.status
        then append_event saved job' EventType.job_cancelled at
            (record no_details { status = some job'.status })
        else saved,
    job',
  )
