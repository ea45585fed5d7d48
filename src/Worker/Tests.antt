-- ===== src/Worker/Tests.antt =====
-- The worker at a running job whose cancellation was requested while attempts are left.
use reconcileflow_ai.Prelude.{◌≡◌, refl, none, [], ◌∷◌, codes, ltb, find?}
use reconcileflow_ai.Jobs.Records.{Job, JobPriority}
use reconcileflow_ai.Jobs.Store.{Store, ok, get}
use reconcileflow_ai.Jobs.Queue.{new_job, cancel_job}
use reconcileflow_ai.Jobs.Claim.{lease_job}
use reconcileflow_ai.Worker.Service.{BackgroundWorker, WorkerJob, done, finish}
use reconcileflow_ai.Worker.Endings.{Left, left_status, is_asked, finish-Left}

abbrev worker : BackgroundWorker
worker = record {
  worker_id = codes "worker-1";
  stale_timeout_seconds = 300;
  retry_delay_seconds = 30;
  priority_aging_seconds = 300;
  organization_id = none;
}

abbrev held : Job
held =
    cancel_job (lease_job (new_job 7 0 1 5 0 3 60 JobPriority.normal) worker.worker_id 1_000) 2_000

abbrev store : Store
store = record { jobs = held ∷ []; events = []; runs = []; result_runs = []; workers = [] }

abbrev job : WorkerJob
job = record {
  id = 7;
  organization_id = 1;
  run_id = 5;
  attempt_count = 1;
  max_attempts = 3;
  timeout_seconds = 60;
  deadline_at = 60_001_000;
}

found : get store 7 1 ≡ ok held
unfolding get find? cancel_job lease_job new_job
found = refl

finish-Left_example :
    Left store
      (left_status done (is_asked held.status) (ltb job.attempt_count job.max_attempts))
      (finish worker store job done 3_000)
unfolding cancel_job lease_job new_job
finish-Left_example = finish-Left worker store job done 3_000 held found refl refl refl
