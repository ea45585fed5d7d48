-- ===== src/Worker/Service.antt =====
-- backend/src/reconcileflow/worker/service.py, BackgroundWorker and WorkerContext, with
-- `WorkerRepository` of persistence/repositories.py. Logging is left out.
use reconcileflow_ai.Prelude.{
  ℕ, ◌+◌, ◌-◌, Bool, true, false, Option, none, some, List, [], ◌∷◌, if◌then◌else◌, ltb, leb, find?,
  Text, codes, text_eq,
}
use reconcileflow_ai.Jobs.Records.{Job, JobStatus, Worker, WorkerStatus, seconds}
use reconcileflow_ai.Jobs.Store.{
  Store, Result, ok, value_error, record_not_found, ◌>>=◌, or_raise, get,
}
use reconcileflow_ai.Jobs.Queue.{heartbeat, update_progress, recover_stale}
use reconcileflow_ai.Jobs.Claim.{claim_next}
use reconcileflow_ai.Jobs.Completion.{complete, Ending}

pub record WorkerJob : Type 0 where
  pub id : ℕ
  pub organization_id : ℕ
  pub run_id : ℕ
  pub attempt_count : ℕ
  pub max_attempts : ℕ
  pub timeout_seconds : ℕ
  pub deadline_at : ℕ

-- The arguments of the worker that are checked when it is made; times are in seconds.
pub record BackgroundWorker : Type 0 where
  pub worker_id : Text
  pub stale_timeout_seconds : ℕ
  pub retry_delay_seconds : ℕ
  pub priority_aging_seconds : ℕ
  pub organization_id : Option ℕ

is_stopped : WorkerStatus → Bool
is_stopped WorkerStatus.stopped = true
is_stopped WorkerStatus.running = false

unfoldable pub put_worker : Worker → List Worker → List Worker
put_worker w [] = w ∷ []
put_worker w (x ∷ workers) =
    let rest = put_worker w workers in
    if text_eq x.worker_id w.worker_id then w ∷ workers else x ∷ rest

-- `WorkerRepository.heartbeat`
unfoldable pub worker_heartbeat : Store → Text → ℕ → Store
unfolding is_stopped
worker_heartbeat s worker_id at =
    let found = find? (λ w. text_eq w.worker_id worker_id) s.workers in
    let w : Worker = elim found [
      | none ↦ record {
        worker_id = worker_id;
        status = WorkerStatus.running;
        started_at = at;
        heartbeat_at = at;
        stopped_at = none;
      }
      | some w ↦ record w {
        started_at = if is_stopped w.status then at else w.started_at;
        status = WorkerStatus.running;
        heartbeat_at = at;
        stopped_at = none;
      }
    ] in
    record s { workers = put_worker w s.workers }

-- `WorkerRepository.stop`
unfoldable pub stop : Store → Text → ℕ → Result Store
stop s worker_id at = do
  w ← or_raise (find? (λ w. text_eq w.worker_id worker_id) s.workers) record_not_found
  let w' : Worker = record w {
    status = WorkerStatus.stopped;
    heartbeat_at = at;
    stopped_at = some at;
  }
  ok (record s { workers = put_worker w' s.workers })

is_cancel_requested : JobStatus → Bool
is_cancel_requested JobStatus.cancel_requested = true
is_cancel_requested _ = false

-- How a checkpoint or a processor ends.
pub data Processed : Type 0 where
  done job_cancelled job_timed_out failed : Processed

-- `WorkerContext.checkpoint`, whose unit of work commits before the exception is raised.
unfoldable pub checkpoint :
    Store → Text → WorkerJob → ℕ → Option Text → ℕ → Result (Store × Processed)
unfolding is_cancel_requested
checkpoint s worker_id job progress message at = do
  (beaten, record₀) ←
      heartbeat (worker_heartbeat s worker_id at) job.id job.organization_id worker_id at
  (s', updated) ← update_progress beaten job.id job.organization_id progress message at
  ok (
    s',
    if is_cancel_requested updated.status then job_cancelled else elim updated.deadline_at [
      | none ↦ done
      | some deadline ↦ if leb deadline at then job_timed_out else done
    ],
  )

abbrev pub plain : JobStatus → Ending
plain target = record {
  target = target;
  failure_code = none;
  failure_message = none;
  retry_at = none;
}

-- `now + retry_delay if attempts are left else None`
abbrev pub retry_time : BackgroundWorker → WorkerJob → ℕ → Option ℕ
retry_time w job now =
    if ltb job.attempt_count job.max_attempts
    then some (now + seconds w.retry_delay_seconds)
    else none

-- `_finish_successfully`
unfoldable pub finish_successfully : Store → WorkerJob → ℕ → Result (Store × Job)
unfolding is_cancel_requested
finish_successfully s job now = do
  found ← get s job.id job.organization_id
  complete s job.id job.organization_id
      (plain
        (if is_cancel_requested found.status then JobStatus.cancelled else JobStatus.succeeded))
      now

-- `_finish_cancelled`
unfoldable pub finish_cancelled : Store → WorkerJob → ℕ → Result (Store × Job)
finish_cancelled s job now = complete s job.id job.organization_id (plain JobStatus.cancelled) now

-- `_finish_failed`
unfoldable pub finish_failed : BackgroundWorker → Store → WorkerJob → ℕ → Result (Store × Job)
finish_failed w s job now =
    complete s job.id job.organization_id
      record {
        target = JobStatus.failed;
        failure_code = some (codes "WORKER_PROCESSING_FAILED");
        failure_message = some (codes "Background job processing failed.");
        retry_at = retry_time w job now;
      }
      now

-- `_finish_timed_out`
unfoldable pub finish_timed_out : BackgroundWorker → Store → WorkerJob → ℕ → Result (Store × Job)
unfolding is_cancel_requested
finish_timed_out w s job now = do
  found ← get s job.id job.organization_id
  complete s job.id job.organization_id
      (if is_cancel_requested found.status then plain JobStatus.cancelled else record {
        target = JobStatus.failed;
        failure_code = some (codes "JOB_TIMEOUT");
        failure_message = some (codes "Background job exceeded its execution timeout.");
        retry_at = retry_time w job now;
      })
      now

-- The `except` clauses of `run_once`.
unfoldable pub finish : BackgroundWorker → Store → WorkerJob → Processed → ℕ → Result (Store × Job)
unfolding finish_successfully finish_cancelled finish_failed finish_timed_out
finish w s job done now = finish_successfully s job now
finish w s job job_cancelled now = finish_cancelled s job now
finish w s job job_timed_out now = finish_timed_out w s job now
finish w s job failed now = finish_failed w s job now

-- The job that the processor is handed.
unfoldable pub worker_job : Job → Result WorkerJob
worker_job job = do
  deadline_at ← or_raise job.deadline_at value_error
  ok record {
    id = job.id;
    organization_id = job.organization_id;
    run_id = job.run_id;
    attempt_count = job.attempt_count;
    max_attempts = job.max_attempts;
    timeout_seconds = job.timeout_seconds;
    deadline_at = deadline_at;
  }

-- The first unit of work of `run_once`: recovery of stale leases and a claim. An instant counts from
-- the first that a datetime can hold, so the difference is one of naturals.
unfoldable pub next_work : BackgroundWorker → Store → ℕ → Result (Store × Option Job)
next_work w s now =
    let (recovered, count) =
      recover_stale (worker_heartbeat s w.worker_id now) (now - seconds w.stale_timeout_seconds)
        now in
    claim_next recovered w.worker_id now w.organization_id w.priority_aging_seconds

-- `run_once`: the processor runs between two units of work and may find the store changed by others;
-- `later` is the clock when it ends.
unfoldable pub run_once :
    BackgroundWorker
    → (WorkerJob → Store → Store × Processed)
    → Store
    → ℕ
    → ℕ
    → Result (Store × Bool)
unfolding next_work worker_job finish
run_once w processor s now later = do
  (claimed, found) ← next_work w s now
  elim found [
    | none ↦ ok (claimed, false)
    | some record₁ ↦ worker_job record₁ >>= λ job.
        let (s', result) = processor job claimed in
        finish w s' job result later >>= λ r. ok (r.0, true)
  ]
