-- ===== src/Jobs/Records.antt =====
-- backend/src/reconcileflow/persistence/models.py: jobs, their events, runs and workers. A UUID is a
-- number, since it is compared only; an instant is a number of microseconds.
use reconcileflow_ai.Prelude.{ℕ, ◌*◌, Bool, true, false, Option, none, Text}

pub data JobStatus : Type 0 where
  queued running succeeded failed cancel_requested cancelled : JobStatus

pub data JobPriority : Type 0 where
  low normal high : JobPriority

pub data EventType : Type 0 where
  job_queued job_claimed job_progress_updated job_retry_scheduled job_manual_retry_requested
        job_cancellation_requested job_cancelled job_timed_out job_succeeded job_failed
        job_recovered :
      EventType

pub record Job : Type 0 where
  pub id : ℕ
  pub organization_id : ℕ
  pub run_id : ℕ
  pub status : JobStatus
  pub priority : JobPriority
  pub progress_percentage : ℕ
  pub status_message : Option Text
  pub attempt_count : ℕ
  pub total_attempt_count : ℕ
  pub manual_retry_count : ℕ
  pub max_attempts : ℕ
  pub timeout_seconds : ℕ
  pub deadline_at : Option ℕ
  pub last_manual_retry_at : Option ℕ
  pub scheduled_at : ℕ
  pub started_at : Option ℕ
  pub completed_at : Option ℕ
  pub cancellation_requested_at : Option ℕ
  pub retry_at : Option ℕ
  pub claimed_by : Option Text
  pub heartbeat_at : Option ℕ
  pub failure_code : Option Text
  pub failure_message : Option Text
  pub created_at : ℕ

-- The keys that the details of an event may hold; a missing key is `none`.
pub record EventDetails : Type 0 where
  pub status : Option JobStatus
  pub previous_status : Option JobStatus
  pub priority : Option JobPriority
  pub attempt_count : Option ℕ
  pub manual_retry_count : Option ℕ
  pub progress_percentage : Option ℕ
  pub failure_code : Option Text
  pub deadline_at : Option ℕ
  pub retry_at : Option ℕ

abbrev pub no_details : EventDetails
no_details = record {
  status = none;
  previous_status = none;
  priority = none;
  attempt_count = none;
  manual_retry_count = none;
  progress_percentage = none;
  failure_code = none;
  deadline_at = none;
  retry_at = none;
}

pub record JobEvent : Type 0 where
  pub organization_id : ℕ
  pub job_id : ℕ
  pub sequence_number : ℕ
  pub event_type : EventType
  pub occurred_at : ℕ
  pub details : EventDetails

pub data RunStatus : Type 0 where
  pending running succeeded failed : RunStatus

pub record Run : Type 0 where
  pub id : ℕ
  pub organization_id : ℕ
  pub status : RunStatus
  pub started_at : Option ℕ
  pub finished_at : Option ℕ
  pub error_code : Option Text
  pub error_message : Option Text

pub data WorkerStatus : Type 0 where
  running stopped : WorkerStatus

pub record Worker : Type 0 where
  pub worker_id : Text
  pub status : WorkerStatus
  pub started_at : ℕ
  pub heartbeat_at : ℕ
  pub stopped_at : Option ℕ

-- `timedelta(seconds=n)`
abbrev pub seconds : ℕ → ℕ
seconds n = n * 1_000_000

-- Tests on the enumerations.
abbrev pub is_queued : JobStatus → Bool
is_queued JobStatus.queued = true
is_queued _ = false

-- `status in {RUNNING, CANCEL_REQUESTED}`
abbrev pub is_leased : JobStatus → Bool
is_leased JobStatus.running = true
is_leased JobStatus.cancel_requested = true
is_leased _ = false

abbrev pub is_terminal : JobStatus → Bool
is_terminal JobStatus.succeeded = true
is_terminal JobStatus.failed = true
is_terminal JobStatus.cancelled = true
is_terminal _ = false
