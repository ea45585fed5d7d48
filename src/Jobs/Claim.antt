-- ===== src/Jobs/Claim.antt =====
-- backend/src/reconcileflow/persistence/repositories.py, `BackgroundJobRepository.claim_next`.
use reconcileflow_ai.Prelude.{
  ℕ, ◌+◌, ◌*◌, Bool, true, ◌&&◌, ◌||◌, Option, none, some, List, if◌then◌else◌, ◌==◌, ltb, leb,
  or_else, filter, length, Text, strip,
}
use reconcileflow_ai.Prelude.Sorting.{sort, first}
use reconcileflow_ai.Jobs.Records.{
  Job, JobStatus, JobPriority, EventType, no_details, seconds, is_queued,
}
use reconcileflow_ai.Jobs.Store.{Store, Result, ok, value_error, ◌>>◌, require, save, append_event}

-- `coalesce(retry_at, scheduled_at)`
abbrev pub eligible_since : Job → ℕ
eligible_since job = or_else job.retry_at job.scheduled_at

-- A job's priority after aging, at the instant of the claim.
unfoldable pub effective_priority : ℕ → ℕ → Job → ℕ
effective_priority claimed_at aging job =
    let once = leb (eligible_since job + seconds aging) claimed_at in
    let twice = leb (eligible_since job + seconds (aging * 2)) claimed_at in
    elim job.priority [
      | JobPriority.high ↦ 2
      | JobPriority.normal ↦ if once then 2 else 1
      | JobPriority.low ↦ if twice then 2 else if once then 1 else 0
    ]

-- The `where` of the claim, for one organization or for all.
unfoldable pub claimable : ℕ → Option ℕ → Job → Bool
claimable claimed_at organization_id job =
    is_queued job.status
    && leb job.scheduled_at claimed_at
    && (elim job.retry_at [ none ↦ true | some t ↦ leb t claimed_at ])
    && ltb job.attempt_count job.max_attempts
    && (elim organization_id [ none ↦ true | some o ↦ job.organization_id == o ])

-- The `order_by` of the claim: priority first, then age, creation and identifier.
unfoldable pub claim_leb : ℕ → ℕ → Job → Job → Bool
unfolding effective_priority
claim_leb claimed_at aging a b =
    let pa = effective_priority claimed_at aging a in
    let pb = effective_priority claimed_at aging b in
    ltb pb pa
    || (pa == pb
        && (ltb (eligible_since a) (eligible_since b)
            || (eligible_since a == eligible_since b
                && (ltb a.created_at b.created_at
                    || (a.created_at == b.created_at && leb a.id b.id)))))

-- The record under its new lease.
unfoldable pub lease_job : Job → Text → ℕ → Job
lease_job job worker_id claimed_at = record job {
  status = JobStatus.running;
  attempt_count = job.attempt_count + 1;
  total_attempt_count = job.total_attempt_count + 1;
  started_at = some claimed_at;
  claimed_by = some worker_id;
  heartbeat_at = some claimed_at;
  completed_at = none;
  deadline_at = some (claimed_at + seconds job.timeout_seconds);
  retry_at = none;
  failure_code = none;
  failure_message = none;
}

unfoldable pub next_job : List Job → ℕ → Option ℕ → ℕ → Option Job
unfolding claimable claim_leb
next_job jobs claimed_at organization_id aging =
    first (sort (claim_leb claimed_at aging) (filter (claimable claimed_at organization_id) jobs))

-- `not worker_id or len(worker_id) > 200` is false
abbrev pub valid_worker : Text → Bool
valid_worker w = leb 1 (length w) && leb (length w) 200

-- The lease of the record that the query found, if it found one.
unfoldable pub claim_found : Store → Text → ℕ → Option Job → Result (Store × Option Job)
unfolding lease_job
claim_found s worker_id at none = ok (s, none)
claim_found s worker_id at (some job) =
    let job' = lease_job job worker_id at in
    ok (
      append_event (save s job') job' EventType.job_claimed at (record no_details {
        attempt_count = some job'.attempt_count;
        priority = some job.priority;
        status = some job'.status;
        deadline_at = job'.deadline_at;
      }),
      some job',
    )

unfoldable pub claim_next : Store → Text → ℕ → Option ℕ → ℕ → Result (Store × Option Job)
unfolding next_job claim_found
claim_next s worker at organization_id aging = do
  let worker_id : Text = strip worker
  require (valid_worker worker_id) value_error
  require (leb 30 aging) value_error
  claim_found s worker_id at (next_job s.jobs at organization_id aging)
