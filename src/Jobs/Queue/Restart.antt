-- ===== src/Jobs/Queue/Restart.antt =====
-- backend/src/reconcileflow/persistence/repositories.py, BackgroundJobRepository: recovery of stale
-- leases and manual retries.
use reconcileflow_ai.Prelude.{
  ℕ, ◌+◌, Bool, true, false, not, ◌&&◌, none, some, List, [], ◌∷◌, if◌then◌else◌, ◌==◌, ltb, leb,
  any, filter, find?, length, codes,
}
use reconcileflow_ai.Jobs.Records.{Job, JobStatus, EventType, no_details, Run, RunStatus, is_leased}
use reconcileflow_ai.Jobs.Store.{
  Store, Result, ok, value_error, invalid_status_transition, ◌>>=◌, ◌>>◌, require, or_raise, get,
  save, put_run, append_event,
}

unfoldable pub is_failed : JobStatus → Bool
is_failed JobStatus.failed = true
is_failed _ = false

unfoldable pub run_failed : RunStatus → Bool
run_failed RunStatus.failed = true
run_failed _ = false

-- What recovery does to one interrupted job.
unfoldable pub recover_job : Job → ℕ → Job
recover_job job at = elim job.status [
  | JobStatus.cancel_requested ↦ record job {
    status = JobStatus.cancelled;
    completed_at = some at;
    status_message = some (codes "Cancelled after worker interruption");
    claimed_by = none;
    heartbeat_at = none;
    deadline_at = none;
  }
  | _ ↦
      if ltb job.attempt_count job.max_attempts
      then record job {
        status = JobStatus.queued;
        retry_at = some at;
        started_at = none;
        status_message = some (codes "Recovered after worker interruption");
        claimed_by = none;
        heartbeat_at = none;
        deadline_at = none;
      }
      else record job {
        status = JobStatus.failed;
        completed_at = some at;
        failure_code = some (codes "WORKER_INTERRUPTED");
        failure_message = some (codes "Background processing was interrupted.");
        claimed_by = none;
        heartbeat_at = none;
        deadline_at = none;
      }
]

-- A lease whose heartbeat is not after the cutoff; SQL's comparison with NULL does not hold.
unfoldable pub is_stale : ℕ → Job → Bool
is_stale cutoff job =
    is_leased job.status && (elim job.heartbeat_at [ none ↦ false | some h ↦ leb h cutoff ])

unfoldable pub recover_each : Store → List Job → ℕ → Store
unfolding recover_job
recover_each s [] at = s
recover_each s (job ∷ jobs) at =
    let job' = recover_job job at in
    recover_each
      (append_event (save s job') job' EventType.job_recovered at (record no_details {
        previous_status = some job.status;
        status = some job'.status;
        attempt_count = some job'.attempt_count;
        failure_code = job'.failure_code;
      }))
      jobs at

-- `recover_stale` answers the number of recovered jobs.
unfoldable pub recover_stale : Store → ℕ → ℕ → Store × ℕ
unfolding recover_each is_stale
recover_stale s stale_before at =
    let records = filter (is_stale stale_before) s.jobs in
    (recover_each s records at, length records)

-- The record of a job that starts over.
unfoldable pub requeue_job : Job → ℕ → Job
requeue_job job at = record job {
  status = JobStatus.queued;
  progress_percentage = 0;
  status_message = some (codes "Manual retry queued");
  attempt_count = 0;
  manual_retry_count = job.manual_retry_count + 1;
  last_manual_retry_at = some at;
  scheduled_at = at;
  started_at = none;
  completed_at = none;
  deadline_at = none;
  cancellation_requested_at = none;
  retry_at = none;
  claimed_by = none;
  heartbeat_at = none;
  failure_code = none;
  failure_message = none;
}

-- The run of a job, under the organization.
unfoldable pub run_of : Store → Job → ℕ → Result Run
run_of s job organization_id =
    or_raise (find? (λ r. r.id == job.run_id && r.organization_id == organization_id) s.runs)
      invalid_status_transition

unfoldable pub retry_failed : Store → ℕ → ℕ → ℕ → ℕ → Result (Store × Job)
unfolding requeue_job is_failed run_of run_failed
retry_failed s job_id organization_id max_manual_retries at = do
  require (leb 1 max_manual_retries) value_error
  job ← get s job_id organization_id
  require (is_failed job.status) invalid_status_transition
  require (ltb job.manual_retry_count max_manual_retries) invalid_status_transition
  require (not (any (λ run_id. run_id == job.run_id) s.result_runs)) invalid_status_transition
  run ← run_of s job organization_id
  require (run_failed run.status) invalid_status_transition
  let job' : Job = requeue_job job at
  let run' : Run = record run {
    status = RunStatus.pending;
    started_at = none;
    finished_at = none;
    error_code = none;
    error_message = none;
  }
  ok (
    append_event (record (save s job') { runs = put_run run' s.runs }) job'
        EventType.job_manual_retry_requested at
        (record no_details {
          manual_retry_count = some job'.manual_retry_count;
          priority = some job.priority;
          status = some job'.status;
        }),
    job',
  )
