-- ===== src/Jobs/Validity.antt =====
-- What holds of every job between two calls: the constraints of the table in
-- backend/src/reconcileflow/persistence/models.py, and which columns go with which status.
use reconcileflow_ai.Prelude.{ℕ, ◌+◌, ◌*◌, ◌≤◌, ◌≡◌, refl, true, arith, ltb, is_some, Text, ltb→lt}
use reconcileflow_ai.Jobs.Records.{Job, EventType, is_leased, is_terminal}
use reconcileflow_ai.Jobs.Store.{ok}
use reconcileflow_ai.Jobs.Queue.{cancel_job, recover_job, requeue_job, may_cancel}
use reconcileflow_ai.Jobs.Claim.{lease_job}
use reconcileflow_ai.Jobs.Completion.{end_job, Ending, may_complete}

-- The counters keep their limits; a manual retry allows the attempts of one more round.
abbrev pub Limited : Job → Type 0
Limited job =
    (job.progress_percentage ≤ 100)
    × (1 ≤ job.max_attempts)
    × (30 ≤ job.timeout_seconds)
    × (job.attempt_count ≤ job.max_attempts)
    × (job.attempt_count ≤ job.total_attempt_count)
    × (job.total_attempt_count ≤ job.manual_retry_count * job.max_attempts + job.attempt_count)

-- A job has a worker, a heartbeat and a deadline while it is leased, and an end once it has ended.
abbrev pub Dated : Job → Type 0
Dated job =
    (is_some job.claimed_by ≡ is_leased job.status)
    × (is_some job.heartbeat_at ≡ is_leased job.status)
    × (is_some job.deadline_at ≡ is_leased job.status)
    × (is_some job.completed_at ≡ is_terminal job.status)

abbrev pub IsValid : Job → Type 0
IsValid job = Limited job × Dated job

pub lease_job-IsValid :
    (job : Job) (w : Text) (at : ℕ)
    → ltb job.attempt_count job.max_attempts ≡ true
    → IsValid job
    → IsValid (lease_job job w at)
unfolding lease_job
lease_job-IsValid job w at h (l, d) =
    let less = ltb→lt job.attempt_count job.max_attempts h in
    ((l.0, l.1, l.2, omega arith, omega arith, omega arith), (refl, refl, refl, refl))

pub requeue_job-IsValid : (job : Job) (at : ℕ) → IsValid job → IsValid (requeue_job job at)
unfolding requeue_job
requeue_job-IsValid job at (l, d) =
    ((omega arith, l.1, l.2, omega arith, omega arith, omega arith), (refl, refl, refl, refl))

pub cancel_job-IsValid :
    (job : Job) (at : ℕ) → may_cancel job.status ≡ true → IsValid job → IsValid (cancel_job job at)
unfolding cancel_job
cancel_job-IsValid job at h (l, d) = ground arith

pub recover_job-IsValid :
    (job : Job) (at : ℕ) → is_leased job.status ≡ true → IsValid job → IsValid (recover_job job at)
unfolding recover_job
recover_job-IsValid job at h (l, d) = ground arith

pub end_job-IsValid :
    (job : Job) (e : Ending) (at : ℕ) (r : Job × EventType)
    → may_complete job.status e.target ≡ true
    → end_job job e at ≡ ok r
    → IsValid job
    → IsValid r.0
unfolding end_job may_complete
end_job-IsValid job e at r h k (l, d) = ground arith
