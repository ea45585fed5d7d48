-- ===== src/Maintenance/Retention.antt =====
-- backend/src/reconcileflow/maintenance/cleanup.py, RetentionCleanup, and the expired workers of
-- backend/src/reconcileflow/persistence/repositories.py.
use reconcileflow_ai.Prelude.{
  ℕ, zero, suc, ◌+◌, ◌*◌, ◌-◌, Bool, true, false, not, ◌&&◌, ◌||◌, Option, none, some, List, filter,
  any, take, length, if◌then◌else◌, ◌==◌, leb, ltb, text_eq, text_leb,
}
use reconcileflow_ai.Prelude.Sorting.{sort}
use reconcileflow_ai.Jobs.Records.{Worker, WorkerStatus}
use reconcileflow_ai.Jobs.Store.{Store}
use reconcileflow_ai.Jobs.Expiry.{
  Cutoffs, ended_by, count_expired_terminal, delete_expired_terminal,
}

-- The retention in days and the size of a batch; all are positive.
pub record RetentionCleanup : Type 0 where
  pub succeeded_days : ℕ
  pub failed_days : ℕ
  pub cancelled_days : ℕ
  pub worker_days : ℕ
  pub batch_size : ℕ

abbrev pub days : ℕ → ℕ
days n = n * 86_400_000_000

-- `now - timedelta(days=days)`; an instant is after the epoch by more than any retention.
abbrev pub cutoffs_of : RetentionCleanup → ℕ → Cutoffs
cutoffs_of c now = record {
  succeeded = now - days c.succeeded_days;
  failed = now - days c.failed_days;
  cancelled = now - days c.cancelled_days;
}

-- `_delete_jobs` on fuel, from a total; `none` is a loop that still runs.
unfoldable pub delete_jobs : Cutoffs → ℕ → Store → ℕ → ℕ → Option (Store × ℕ)
delete_jobs c batch_size s sum zero = none
delete_jobs c batch_size s sum (suc fuel) =
    let (s', deleted) = delete_expired_terminal s c batch_size in
    let rest = delete_jobs c batch_size s' (sum + deleted) fuel in
    if ltb deleted batch_size then some (s', sum + deleted) else rest

-- `WorkerRepository._retention_condition`
unfoldable pub worker_expired : ℕ → Worker → Bool
unfolding ended_by
worker_expired cutoff w = elim w.status [
  | WorkerStatus.stopped ↦ ended_by w.stopped_at cutoff
  | WorkerStatus.running ↦ leb w.heartbeat_at cutoff
]

-- `WorkerRepository.count_expired`
unfoldable pub count_expired : Store → ℕ → ℕ
unfolding worker_expired
count_expired s cutoff = length (filter (worker_expired cutoff) s.workers)

unfoldable pub worker_leb : Worker → Worker → Bool
worker_leb a b =
    ltb a.heartbeat_at b.heartbeat_at
    || (a.heartbeat_at == b.heartbeat_at && text_leb a.worker_id b.worker_id)

-- `WorkerRepository.delete_expired`
unfoldable pub delete_expired : Store → ℕ → ℕ → Store × ℕ
unfolding worker_leb
delete_expired s cutoff limit =
    let ids : List Worker =
      take limit (sort worker_leb (filter (worker_expired cutoff) s.workers)) in
    let chosen : Worker → Bool =
      λ w. any (λ b. text_eq b.worker_id w.worker_id) ids && worker_expired cutoff w in
    (
      record s { workers = filter (λ w. not (chosen w)) s.workers },
      length (filter chosen s.workers),
    )

-- `_delete_workers` on fuel, from a total.
unfoldable pub delete_workers : ℕ → ℕ → Store → ℕ → ℕ → Option (Store × ℕ)
delete_workers cutoff batch_size s sum zero = none
delete_workers cutoff batch_size s sum (suc fuel) =
    let (s', deleted) = delete_expired s cutoff batch_size in
    let rest = delete_workers cutoff batch_size s' (sum + deleted) fuel in
    if ltb deleted batch_size then some (s', sum + deleted) else rest

-- `CleanupResult`
pub record CleanupResult : Type 0 where
  pub eligible_jobs : ℕ
  pub deleted_jobs : ℕ
  pub eligible_workers : ℕ
  pub deleted_workers : ℕ
  pub dry_run : Bool

-- After the jobs, and after the workers.
unfoldable pub cleaned : ℕ → ℕ → ℕ → Option (Store × ℕ) → Option (Store × CleanupResult)
cleaned jobs workers deleted none = none
cleaned jobs workers deleted (some (s, n)) = some (
  s,
  record {
    eligible_jobs = jobs;
    deleted_jobs = deleted;
    eligible_workers = workers;
    deleted_workers = n;
    dry_run = false;
  },
)

unfoldable pub clean_workers :
    RetentionCleanup → ℕ → ℕ → ℕ → Option (Store × ℕ) → Option (Store × CleanupResult)
unfolding cleaned delete_workers
clean_workers c now jobs workers none = none
clean_workers c now jobs workers (some (s, n)) =
    cleaned jobs workers n
      (delete_workers (now - days c.worker_days) c.batch_size s 0 (suc (length s.workers)))

-- `run`; each loop has one round more than there are rows.
unfoldable pub run_cleanup : RetentionCleanup → Store → Bool → ℕ → Option (Store × CleanupResult)
unfolding clean_workers delete_jobs count_expired_terminal count_expired
run_cleanup c s dry_run now =
    let jobs : ℕ = count_expired_terminal s (cutoffs_of c now) in
    let workers : ℕ = count_expired s (now - days c.worker_days) in
    if dry_run
    then some (
      s,
      record {
        eligible_jobs = jobs;
        deleted_jobs = 0;
        eligible_workers = workers;
        deleted_workers = 0;
        dry_run = true;
      },
    )
    else clean_workers c now jobs workers
        (delete_jobs (cutoffs_of c now) c.batch_size s 0 (suc (length s.jobs)))
