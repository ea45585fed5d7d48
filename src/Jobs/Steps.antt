-- ===== src/Jobs/Steps.antt =====
-- One call on the queue as a step between stores, and the stores that calls reach from empty tables.
use reconcileflow_ai.Prelude.{ℕ, ◌≡◌, false, Option, [], Text, All, ◌==◌, true, ◌≤◌}
use reconcileflow_ai.Jobs.Records.{Job, JobPriority}
use reconcileflow_ai.Jobs.Store.{Store, ok}
use reconcileflow_ai.Jobs.Queue.{
  create, heartbeat, update_progress, request_cancellation, recover_stale, retry_failed,
}
use reconcileflow_ai.Jobs.Claim.{claim_next}
use reconcileflow_ai.Jobs.Expiry.{Cutoffs, expired, delete_expired_terminal}
use reconcileflow_ai.Jobs.Completion.{complete, Ending}

-- The calls that return. One that raises rolls its unit of work back. The identifier of a new job,
-- which the database's library draws, is no key of the table.
pub data Step (s : Store) (s' : Store) : Type 0 where
  created :
      (id now organization_id run_id scheduled_at max_attempts timeout_seconds : ℕ)
      (priority : JobPriority) (job : Job)
      → All (λ j. (j.id == id) ≡ false) s.jobs
      → create s id now organization_id run_id scheduled_at max_attempts timeout_seconds priority
        ≡ ok (s', job)
      → Step s s'
  claimed :
      (worker : Text) (at : ℕ) (organization_id : Option ℕ) (aging : ℕ) (job : Option Job)
      → claim_next s worker at organization_id aging ≡ ok (s', job)
      → Step s s'
  beaten :
      (job_id organization_id : ℕ) (worker_id : Text) (at : ℕ) (job : Job)
      → heartbeat s job_id organization_id worker_id at ≡ ok (s', job)
      → Step s s'
  advanced :
      (job_id organization_id progress : ℕ) (message : Option Text) (at : ℕ) (job : Job)
      → update_progress s job_id organization_id progress message at ≡ ok (s', job)
      → Step s s'
  asked_to_cancel :
      (job_id organization_id at : ℕ) (job : Job)
      → request_cancellation s job_id organization_id at ≡ ok (s', job)
      → Step s s'
  recovered : (stale_before at n : ℕ) → recover_stale s stale_before at ≡ (s', n) → Step s s'
  retried :
      (job_id organization_id max_manual_retries at : ℕ) (job : Job)
      → retry_failed s job_id organization_id max_manual_retries at ≡ ok (s', job)
      → Step s s'
  completed :
      (job_id organization_id : ℕ) (e : Ending) (at : ℕ) (job : Job)
      → complete s job_id organization_id e at ≡ ok (s', job)
      → Step s s'
  deleted :
      (c : Cutoffs) (limit n : ℕ)
      → 1 ≤ limit
      → delete_expired_terminal s c limit ≡ (s', n)
      → Step s s'

-- The call is a manual retry of the job at a time.
abbrev pub Retries : {s s' : Store} → Step s s' → Job → ℕ → Type 0
Retries (Step.retried job_id organization_id limit at _ _) job when =
    (job_id ≡ job.id) × (organization_id ≡ job.organization_id) × (at ≡ when)
Retries _ job when = ⊥

-- The call is a deletion with cutoffs that the job has passed.
abbrev pub Deletes : {s s' : Store} → Step s s' → Job → Type 0
Deletes (Step.deleted c _ _ _ _) job = expired c job ≡ true
Deletes _ job = ⊥

-- What calls reach from tables without a job and without an event.
pub data Reachable : Store → Type 0 where
  begun : (s : Store) → s.jobs ≡ [] → s.events ≡ [] → Reachable s
  stepped : (s s' : Store) → Reachable s → Step s s' → Reachable s'
