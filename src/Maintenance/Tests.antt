-- ===== src/Maintenance/Tests.antt =====
-- Three jobs, of which two have expired, and batches of one.
use reconcileflow_ai.Prelude.{ℕ, ◌≡◌, refl, some, none, [], ◌∷◌, arith, filter, any}
use reconcileflow_ai.Prelude.Sorting.{sort}
use reconcileflow_ai.Jobs.Records.{Job, JobStatus, JobPriority}
use reconcileflow_ai.Jobs.Store.{Store}
use reconcileflow_ai.Jobs.Expiry.{Cutoffs, expired, count_expired_terminal, delete_expired_terminal}
use reconcileflow_ai.Maintenance.Retention.{delete_jobs}
use reconcileflow_ai.Maintenance.Cleanup.{Cleaned, delete_jobs_ends}

abbrev ended : ℕ → ℕ → Job
ended id at = record {
  id = id;
  organization_id = 1;
  run_id = id;
  status = JobStatus.succeeded;
  priority = JobPriority.normal;
  progress_percentage = 100;
  status_message = none;
  attempt_count = 1;
  total_attempt_count = 1;
  manual_retry_count = 0;
  max_attempts = 3;
  timeout_seconds = 60;
  deadline_at = none;
  last_manual_retry_at = none;
  scheduled_at = 1;
  started_at = some 1;
  completed_at = some at;
  cancellation_requested_at = none;
  retry_at = none;
  claimed_by = none;
  heartbeat_at = none;
  failure_code = none;
  failure_message = none;
  created_at = 1;
}

abbrev cutoffs : Cutoffs
cutoffs = record { succeeded = 20; failed = 20; cancelled = 20 }

abbrev three_jobs : Store
three_jobs = record {
  jobs = ended 1 12 ∷ ended 2 30 ∷ ended 3 11 ∷ [];
  events = [];
  runs = [];
  result_runs = [];
  workers = [];
}

deletes_two :
    delete_jobs cutoffs 1 three_jobs 0 4 ≡ some (record three_jobs { jobs = ended 2 30 ∷ [] }, 2)
unfolding delete_jobs delete_expired_terminal filter any sort expired
deletes_two = refl

delete_jobs_ends_example :
    (s' : Store) × (delete_jobs cutoffs 1 three_jobs 0 4
      ≡ some (s', count_expired_terminal three_jobs cutoffs))
    × Cleaned cutoffs three_jobs s'
delete_jobs_ends_example =
    delete_jobs_ends cutoffs 1 three_jobs (omega arith) ((refl, (refl, tt)), ((refl, tt), (tt, tt)))
