-- ===== src/Jobs/Transitions.antt =====
-- One job's state machine: the changes that the calls on the queue make to a record, whatever store
-- it stands in.
use reconcileflow_ai.Prelude.{ℕ, ◌≤◌, ◌≡◌, true, Option, some, Text, arith, ltb}
use reconcileflow_ai.Jobs.Records.{Job, EventType, is_leased, is_queued}
use reconcileflow_ai.Jobs.Store.{ok}
use reconcileflow_ai.Jobs.Queue.{
  cancel_job, recover_job, requeue_job, may_cancel, clipped, is_failed,
}
use reconcileflow_ai.Jobs.Claim.{lease_job}
use reconcileflow_ai.Jobs.Completion.{end_job, Ending, may_complete}
use reconcileflow_ai.Jobs.Validity.{
  IsValid, lease_job-IsValid, requeue_job-IsValid, cancel_job-IsValid, recover_job-IsValid,
  end_job-IsValid,
}

pub data Change (job job' : Job) : Type 0 where
  leased :
      (w : Text) (at : ℕ)
      → is_queued job.status ≡ true
      → ltb job.attempt_count job.max_attempts ≡ true
      → job' ≡ lease_job job w at
      → Change job job'
  renewed :
      (at : ℕ)
      → is_leased job.status ≡ true
      → job' ≡ record job { heartbeat_at = some at }
      → Change job job'
  advanced :
      (progress : ℕ) (message : Option Text)
      → progress ≤ 100
      → is_leased job.status ≡ true
      → job' ≡ record job { progress_percentage = progress; status_message = clipped 500 message }
      → Change job job'
  asked : (at : ℕ) → may_cancel job.status ≡ true → job' ≡ cancel_job job at → Change job job'
  recovered : (at : ℕ) → is_leased job.status ≡ true → job' ≡ recover_job job at → Change job job'
  requeued : (at : ℕ) → is_failed job.status ≡ true → job' ≡ requeue_job job at → Change job job'
  ended :
      (e : Ending) (at : ℕ) (t : EventType)
      → may_complete job.status e.target ≡ true
      → end_job job e at ≡ ok (job', t)
      → Change job job'

pub Change-IsValid : (job job' : Job) → Change job job' → IsValid job → IsValid job'
Change-IsValid job job' (Change.leased w at q h e) v = rw e (lease_job-IsValid job w at h v)
Change-IsValid job job' (Change.renewed at h e) v = rw e (ground arith)
Change-IsValid job job' (Change.advanced p m low h e) v = rw e (ground arith)
Change-IsValid job job' (Change.asked at h e) v = rw e (cancel_job-IsValid job at h v)
Change-IsValid job job' (Change.recovered at h e) v = rw e (recover_job-IsValid job at h v)
Change-IsValid job job' (Change.requeued at h e) v = rw e (requeue_job-IsValid job at v)
Change-IsValid job job' (Change.ended e at t h k) v = end_job-IsValid job e at (job', t) h k v

-- What a job is about never changes.
pub Change-id : (job job' : Job) → Change job job' → job'.id ≡ job.id
unfolding lease_job cancel_job recover_job requeue_job end_job
Change-id job job' (Change.leased w at q h e) = rw e
Change-id job job' (Change.renewed at h e) = rw e
Change-id job job' (Change.advanced p m low h e) = rw e
Change-id job job' (Change.asked at h e) = ground arith
Change-id job job' (Change.recovered at h e) = ground arith
Change-id job job' (Change.requeued at h e) = rw e
Change-id job job' (Change.ended e at t h k) = ground arith
