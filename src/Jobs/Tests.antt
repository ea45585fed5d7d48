-- ===== src/Jobs/Tests.antt =====
-- One job of one run through creation, a claim, a request to cancel and a failure, and the
-- theorems about the queue at it.
use mathlib.Core.List.{Memᴰ}
use reconcileflow_ai.Prelude.{
  ◌≢◌, ℕ, ◌≡◌, ◌≤◌, ◌⊎◌, refl, true, false, ◌&&◌, none, some, [], ◌∷◌, All, arith, Text, codes, leb,
  if◌then◌else◌, map, strip, any, find?, filter,
}
use reconcileflow_ai.Prelude.Sorting.{sort}
use reconcileflow_ai.Jobs.Records.{JobStatus, RunStatus, Job, JobPriority, Run, RunStatus}
use reconcileflow_ai.Jobs.Store.{
  get, Store, Result, ok, raise, put_job, append_event, get, last_sequence,
}
use reconcileflow_ai.Jobs.Stranded.{recovered_cannot_be_retried}
use reconcileflow_ai.Jobs.Queue.{
  run_of, recover_job, retry_failed, new_job, create, requeue_job, is_failed, cancel_job,
  recover_stale, is_stale, request_cancellation,
}
use reconcileflow_ai.Jobs.Claim.{claim_next, claim_found, lease_job, claimable, eligible_since}
use reconcileflow_ai.Jobs.Steps.{Step, Retries, Deletes, Reachable}
use reconcileflow_ai.Jobs.Validity.{IsValid}
use reconcileflow_ai.Jobs.Table.{Unique}
use reconcileflow_ai.Jobs.Recovery.{recover_if, recover_stale_lem}
use reconcileflow_ai.Jobs.Priority.{Precedes}
use reconcileflow_ai.Jobs.Fairness.{claim_next_lem, claim_next_waits_its_turn}
use reconcileflow_ai.Jobs.Invariant.{Reachable-IsValid, Step_keeps_terminal}
use reconcileflow_ai.Jobs.Numbering.{count_events, Reachable-Numbered}

abbrev run : Run
run = record {
  id = 5;
  organization_id = 1;
  status = RunStatus.pending;
  started_at = none;
  finished_at = none;
  error_code = none;
  error_message = none;
}

abbrev empty : Store
empty = record { jobs = []; events = []; runs = run ∷ []; result_runs = []; workers = [] }

-- The store and the value of a call that returns.
abbrev after {ℓ} : {A : Type ℓ} → Store → Result (Store × A) → Store
after s (ok (s', a)) = s'
after s (raise e) = s

abbrev waiting : Job
waiting = new_job 7 0 1 5 0 3 60 JobPriority.low

abbrev with_job : Store
with_job = after empty (create empty 7 0 1 5 0 3 60 JobPriority.low)

abbrev worker : Text
worker = codes "worker-1"

abbrev claim_time : ℕ
claim_time = 700_000_000

abbrev claimed : Store
claimed = after with_job (claim_next with_job worker claim_time none 300)

abbrev leased : Job
leased = lease_job waiting worker claim_time

created_step : Step empty with_job
unfolding create any
created_step = Step.created 7 0 1 5 0 3 60 JobPriority.low waiting tt refl

claimed_step : Step with_job claimed
unfolding create claim_next claim_found strip sort filter any append_event
claimed_step = Step.claimed worker claim_time none 300 (some leased) refl

claimed-Reachable : Reachable claimed
claimed-Reachable =
    Reachable.stepped with_job claimed
      (Reachable.stepped empty with_job (Reachable.begun empty refl refl) created_step) claimed_step

Reachable-IsValid_example : Unique claimed.jobs × All IsValid claimed.jobs
Reachable-IsValid_example = Reachable-IsValid claimed claimed-Reachable

Reachable-Numbered_example :
    count_events 7 2 claimed.events
    ≡ (if leb 1 2 && leb 2 (last_sequence 7 claimed.events) then 1 else 0)
Reachable-Numbered_example = Reachable-Numbered claimed claimed-Reachable 7 2

claim_next_lem_example :
    ((claim_next with_job worker claim_time none 300 ≡ ok (with_job, none))
      × ((k : Job) → Memᴰ k with_job.jobs → claimable claim_time none k ≡ false))
    ⊎ ((job : Job) × (s' : Store) × (claim_next with_job worker claim_time none 300
          ≡ ok (s', some (lease_job job (strip worker) claim_time)))
        × (s'.jobs ≡ put_job (lease_job job (strip worker) claim_time) with_job.jobs)
        × Memᴰ job with_job.jobs
        × (claimable claim_time none job ≡ true)
        × ((k : Job)
            → Memᴰ k with_job.jobs
            → claimable claim_time none k ≡ true
            → Precedes claim_time 300 job k))
unfolding strip
claim_next_lem_example = claim_next_lem with_job worker claim_time none 300 refl (omega arith)

has_job : Memᴰ waiting with_job.jobs
unfolding create any append_event
has_job = Memᴰ.head refl

may_claim : claimable claim_time none waiting ≡ true
unfolding claimable new_job
may_claim = refl

claims_it : claim_next with_job worker claim_time none 300 ≡ ok (claimed, some leased)
unfolding create claim_next claim_found strip sort filter any append_event
claims_it = refl

claim_next_waits_its_turn_example :
    (job : Job) × Memᴰ job with_job.jobs
    × (leased ≡ lease_job job (strip worker) claim_time)
    × (eligible_since job ≤ eligible_since waiting)
unfolding new_job
claim_next_waits_its_turn_example =
    claim_next_waits_its_turn with_job worker claim_time none 300 claimed leased waiting claims_it
      has_job may_claim (omega arith)

-- Its lease is stale ten minutes later.
claimed-Unique : Unique claimed.jobs
claimed-Unique = (Reachable-IsValid claimed claimed-Reachable).0

recover_stale_lem_example :
    ((recover_stale claimed 800_000_000 1_300_000_000).0.jobs
      ≡ map (recover_if (is_stale 800_000_000) 1_300_000_000) claimed.jobs)
    × All
        (λ j. is_stale 800_000_000 j ≡ false)
        (recover_stale claimed 800_000_000 1_300_000_000).0.jobs
recover_stale_lem_example = recover_stale_lem claimed 800_000_000 1_300_000_000 claimed-Unique

-- A job that was cancelled before it was claimed, and a later claim.
abbrev cancelled_store : Store
cancelled_store = after with_job (request_cancellation with_job 7 1 1_000)

abbrev cancelled_job : Job
cancelled_job = cancel_job waiting 1_000

is_there : Memᴰ cancelled_job cancelled_store.jobs
unfolding create any request_cancellation get find? append_event put_job
is_there = Memᴰ.head refl

claims_nothing : claim_next cancelled_store worker claim_time none 300 ≡ ok (cancelled_store, none)
unfolding create claim_next claim_found strip sort filter any append_event request_cancellation get
    find? put_job
claims_nothing = refl

cancelled_store-Unique : Unique cancelled_store.jobs
unfolding create any request_cancellation get find? append_event put_job
cancelled_store-Unique = (tt, tt)

claims_step : Step cancelled_store cancelled_store
claims_step = Step.claimed worker claim_time none 300 none claims_nothing

Step_keeps_terminal_example :
    Memᴰ cancelled_job cancelled_store.jobs
    ⊎ (((at : ℕ) × Retries claims_step cancelled_job at
          × (is_failed cancelled_job.status ≡ true)
          × Memᴰ (requeue_job cancelled_job at) cancelled_store.jobs)
        ⊎ Deletes claims_step cancelled_job)
unfolding cancel_job new_job
Step_keeps_terminal_example =
    Step_keeps_terminal cancelled_store cancelled_store cancelled_job claims_step
      cancelled_store-Unique is_there refl

-- A job on its last attempt, whose run is running.
abbrev running_run : Run
running_run = record run { status = RunStatus.running; started_at = some 1_000 }

abbrev last_attempt : Job
last_attempt = record (lease_job waiting worker 1_000) {
  attempt_count = 3;
  total_attempt_count = 3;
}

abbrev interrupted : Store
interrupted = record empty { jobs = last_attempt ∷ []; runs = running_run ∷ [] }

finds_job : get interrupted 7 1 ≡ ok last_attempt
unfolding get find? lease_job new_job
finds_job = refl

finds_run : run_of interrupted last_attempt 1 ≡ ok running_run
unfolding run_of find? lease_job new_job
finds_run = refl

is_old : is_stale 2_000 last_attempt ≡ true
unfolding is_stale lease_job new_job
is_old = refl

recovered_cannot_be_retried_example :
    (get (recover_stale interrupted 2_000 3_000).0 7 1 ≡ ok (recover_job last_attempt 3_000))
    × ((recover_job last_attempt 3_000).status ≡ JobStatus.failed)
    × (retry_failed (recover_stale interrupted 2_000 3_000).0 7 1 5 4_000
        ≢ ok (interrupted, last_attempt))
unfolding lease_job new_job
recovered_cannot_be_retried_example =
    recovered_cannot_be_retried interrupted 7 1 2_000 3_000 5 4_000 last_attempt running_run
      (interrupted, last_attempt) (tt, tt) finds_job finds_run refl refl is_old (omega arith)
