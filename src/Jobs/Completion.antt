-- ===== src/Jobs/Completion.antt =====
-- backend/src/reconcileflow/persistence/repositories.py, `BackgroundJobRepository.complete`.
use reconcileflow_ai.Prelude.{
  ℕ, Bool, true, false, Option, none, some, if◌then◌else◌, leb, Text, codes, text_eq,
}
use reconcileflow_ai.Jobs.Records.{Job, JobStatus, EventType, no_details}
use reconcileflow_ai.Jobs.Store.{
  Store, Result, ok, raise, invalid_status_transition, ◌>>=◌, ◌>>◌, require, get, save,
  append_event,
}
use reconcileflow_ai.Jobs.Queue.{clipped}

-- The table `allowed`.
unfoldable pub may_complete : JobStatus → JobStatus → Bool
may_complete JobStatus.running JobStatus.succeeded = true
may_complete JobStatus.running JobStatus.failed = true
may_complete JobStatus.cancel_requested JobStatus.cancelled = true
may_complete JobStatus.cancel_requested JobStatus.failed = true
may_complete _ _ = false

is_timeout : Option Text → Bool
is_timeout none = false
is_timeout (some code) = text_eq code (codes "JOB_TIMEOUT")

-- The job is left by its worker.
abbrev released : Job → Job
released job = record job { claimed_by = none; heartbeat_at = none; deadline_at = none }

pub record Ending : Type 0 where
  pub target : JobStatus
  pub failure_code : Option Text
  pub failure_message : Option Text
  pub retry_at : Option ℕ

-- The record that waits for its next attempt.
unfoldable pub retry_later : Job → Ending → ℕ → Job
retry_later job e t = record (released job) {
  status = JobStatus.queued;
  retry_at = some t;
  status_message = some (codes "Retry scheduled");
  failure_code = clipped 100 e.failure_code;
  failure_message = clipped 2000 e.failure_message;
}

-- The changed record and the event that reports it, or the refusal of one more attempt.
unfoldable pub end_job : Job → Ending → ℕ → Result (Job × EventType)
unfolding is_timeout retry_later
end_job job e at = elim e.target [
  | JobStatus.failed ↦ elim e.retry_at [
    | some t ↦
        if leb job.max_attempts job.attempt_count
        then raise invalid_status_transition
        else ok (retry_later job e t, EventType.job_retry_scheduled)
    | none ↦ ok (
      record (released job) {
        status = JobStatus.failed;
        completed_at = some at;
        failure_code = clipped 100 e.failure_code;
        failure_message = clipped 2000 e.failure_message;
      },
      if is_timeout e.failure_code then EventType.job_timed_out else EventType.job_failed,
    )
  ]
  | JobStatus.succeeded ↦ ok (
    record (released job) {
      status = JobStatus.succeeded;
      completed_at = some at;
      progress_percentage = 100;
    },
    EventType.job_succeeded,
  )
  | target ↦
      ok
        (record (released job) { status = target; completed_at = some at }, EventType.job_cancelled)
]

-- The store with the ended job and the event that reports it.
unfoldable pub with_ending : Store → Job → EventType → ℕ → Store
with_ending s job event_type at = append_event (save s job) job event_type at (record no_details {
  status = some job.status;
  attempt_count = some job.attempt_count;
  failure_code = job.failure_code;
  retry_at = job.retry_at;
})

unfoldable pub complete : Store → ℕ → ℕ → Ending → ℕ → Result (Store × Job)
unfolding may_complete end_job with_ending
complete s job_id organization_id e at = do
  job ← get s job_id organization_id
  require (may_complete job.status e.target) invalid_status_transition
  (job', event_type) ← end_job job e at
  ok (with_ending s job' event_type at, job')
