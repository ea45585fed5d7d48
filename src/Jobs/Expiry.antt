-- ===== src/Jobs/Expiry.antt =====
-- The expired jobs of BackgroundJobRepository, backend/src/reconcileflow/persistence/repositories.py, and
-- their deletion.
use reconcileflow_ai.Prelude.{
  ℕ, Bool, true, false, not, ◌&&◌, ◌||◌, Option, none, some, List, filter, any, take, length, ◌==◌,
  leb, ltb,
}
use reconcileflow_ai.Prelude.Sorting.{sort}
use reconcileflow_ai.Jobs.Records.{Job, JobStatus}
use reconcileflow_ai.Jobs.Store.{Store}

-- The cutoffs of the cleanup, one for each terminal status.
pub record Cutoffs : Type 0 where
  pub succeeded : ℕ
  pub failed : ℕ
  pub cancelled : ℕ

-- `at is not None and at <= cutoff`
unfoldable pub ended_by : Option ℕ → ℕ → Bool
ended_by none cutoff = false
ended_by (some at) cutoff = leb at cutoff

-- A cancelled job that never ran has no end date.
unfoldable pub cancelled_by : Option ℕ → Option ℕ → ℕ → Bool
unfolding ended_by
cancelled_by none cancellation_requested_at cutoff = ended_by cancellation_requested_at cutoff
cancelled_by (some at) cancellation_requested_at cutoff = ended_by (some at) cutoff

-- `_retention_conditions`, joined by `or_`.
unfoldable pub expired : Cutoffs → Job → Bool
unfolding cancelled_by
expired c job = elim job.status [
  | JobStatus.succeeded ↦ ended_by job.completed_at c.succeeded
  | JobStatus.failed ↦ ended_by job.completed_at c.failed
  | JobStatus.cancelled ↦ cancelled_by job.completed_at job.cancellation_requested_at c.cancelled
  | JobStatus.queued ↦ false
  | JobStatus.running ↦ false
  | JobStatus.cancel_requested ↦ false
]

-- The end date, a missing one last as PostgreSQL orders it, then the identifier.
unfoldable pub retention_leb : Job → Job → Bool
retention_leb a b = elim a.completed_at [
  | none ↦ (elim b.completed_at [ none ↦ leb a.id b.id | some _ ↦ false ])
  | some x ↦ (elim b.completed_at [ none ↦ true | some y ↦ ltb x y || (x == y && leb a.id b.id) ])
]

-- `count_expired_terminal`
unfoldable pub count_expired_terminal : Store → Cutoffs → ℕ
count_expired_terminal s c = length (filter (expired c) s.jobs)

-- The rows whose identifiers `delete_expired_terminal` selects.
unfoldable pub batch : Cutoffs → ℕ → List Job → List Job
unfolding retention_leb
batch c limit jobs = take limit (sort retention_leb (filter (expired c) jobs))

unfoldable pub selected : List Job → ℕ → Bool
selected ids job_id = any (λ b. b.id == job_id) ids

-- `delete_expired_terminal`: the tables, and how many jobs were deleted. An empty selection deletes
-- nothing.
unfoldable pub delete_expired_terminal : Store → Cutoffs → ℕ → Store × ℕ
unfolding batch selected
delete_expired_terminal s c limit =
    let ids : List Job = batch c limit s.jobs in
    (
      record s {
        events = filter (λ e. not (selected ids e.job_id)) s.events;
        jobs = filter (λ j. not (selected ids j.id && expired c j)) s.jobs;
      },
      length (filter (λ j. selected ids j.id && expired c j) s.jobs),
    )
