-- ===== src/Worker/Endings.antt =====
-- How the worker leaves a job: every way in which processing can end, against a table of statuses.
use reconcileflow_ai.Prelude.{
  ℕ, ◌+◌, ◌≡◌, refl, inl, inr, Bool, true, false, Option, none, some, Text, arith, ltb, leb,
  if◌then◌else◌, Bool-cases,
}
use reconcileflow_ai.Jobs.Records.{Job, JobStatus, EventType, is_leased, seconds}
use reconcileflow_ai.Jobs.Store.{
  Store, Result, ok, raise, invalid_status_transition, ◌>>=◌, get, require, put_job, append_event,
}
use reconcileflow_ai.Jobs.Completion.{
  complete, Ending, may_complete, end_job, with_ending, retry_later,
}
use reconcileflow_ai.Worker.Service.{
  BackgroundWorker, WorkerJob, Processed, done, job_cancelled, job_timed_out, failed, finish,
  finish_failed, finish_successfully, finish_cancelled, finish_timed_out, plain, retry_time,
}

complete_refused :
    (s : Store) (job_id organization_id : ℕ) (e : Ending) (at : ℕ) (job : Job)
    → get s job_id organization_id ≡ ok job
    → may_complete job.status e.target ≡ false
    → complete s job_id organization_id e at ≡ raise invalid_status_transition
unfolding complete
complete_refused s job_id organization_id e at job h k = rw (h, ◌>>=◌, k, require)

-- The job is written with the status, without a worker and a heartbeat.
abbrev pub Leaves : Store → JobStatus → Result (Store × Job) → Type 0
Leaves s target r =
    (s' : Store) × (job' : Job) × (r ≡ ok (s', job'))
    × (s'.jobs ≡ put_job job' s.jobs)
    × (job'.status ≡ target)
    × (job'.claimed_by ≡ none)
    × (job'.heartbeat_at ≡ none)

complete-Leaves :
    (s : Store) (job_id organization_id : ℕ) (e : Ending) (at : ℕ) (job job' : Job) (t : EventType)
    → get s job_id organization_id ≡ ok job
    → may_complete job.status e.target ≡ true
    → end_job job e at ≡ ok (job', t)
    → job'.claimed_by ≡ none
    → job'.heartbeat_at ≡ none
    → Leaves s job'.status (complete s job_id organization_id e at)
unfolding complete with_ending append_event
complete-Leaves s job_id organization_id e at job job' t h k l m n =
    let e₁ : complete s job_id organization_id e at ≡ ok (with_ending s job' t at, job') =
      rw (h, ◌>>=◌, k, require, l) refl in
    (with_ending s job' t at, job', e₁, refl, refl, m, n)

-- The status in which a leased job is left, by how its processing ended, whether a cancellation was
-- requested and whether attempts are left; `none` where the ending is refused.
unfoldable pub left_status : Processed → Bool → Bool → Option JobStatus
left_status done asked again = some (if asked then JobStatus.cancelled else JobStatus.succeeded)
left_status job_cancelled asked again = if asked then some JobStatus.cancelled else none
left_status job_timed_out asked again =
    some
      (if asked then JobStatus.cancelled else if again then JobStatus.queued else JobStatus.failed)
left_status failed asked again = some (if again then JobStatus.queued else JobStatus.failed)

abbrev pub Left : Store → Option JobStatus → Result (Store × Job) → Type 0
Left s none r = r ≡ raise invalid_status_transition
Left s (some target) r = Leaves s target r

unfoldable pub is_asked : JobStatus → Bool
is_asked JobStatus.cancel_requested = true
is_asked _ = false

module _ (w : BackgroundWorker) (s : Store) (job : WorkerJob) (now : ℕ) (held : Job)
    (got : get s job.id job.organization_id ≡ ok held) where
  done-Left :
      (st : JobStatus)
      → held.status ≡ st
      → is_leased st ≡ true
      → Leaves s
          (if is_asked st then JobStatus.cancelled else JobStatus.succeeded)
          (finish_successfully s job now)
  unfolding finish_successfully is_asked end_job may_complete
  done-Left JobStatus.running is l =
      rw (got, ◌>>=◌, is)
        (complete-Leaves s _ _ (plain JobStatus.succeeded) now held _ _ got (rw is refl) refl refl
          refl)
  done-Left JobStatus.cancel_requested is l =
      rw (got, ◌>>=◌, is)
        (complete-Leaves s _ _ (plain JobStatus.cancelled) now held _ _ got (rw is refl) refl refl
          refl)
  done-Left JobStatus.queued is l = absurd (cc)
  done-Left JobStatus.succeeded is l = absurd (cc)
  done-Left JobStatus.failed is l = absurd (cc)
  done-Left JobStatus.cancelled is l = absurd (cc)

  cancelled-Left :
      (st : JobStatus)
      → held.status ≡ st
      → is_leased st ≡ true
      → Left s (if is_asked st then some JobStatus.cancelled else none) (finish_cancelled s job now)
  unfolding finish_cancelled is_asked end_job may_complete
  cancelled-Left JobStatus.running is l =
      complete_refused s _ _ (plain JobStatus.cancelled) now held got (rw is refl)
  cancelled-Left JobStatus.cancel_requested is l =
      complete-Leaves s _ _ (plain JobStatus.cancelled) now held _ _ got (rw is refl) refl refl refl
  cancelled-Left JobStatus.queued is l = absurd (cc)
  cancelled-Left JobStatus.succeeded is l = absurd (cc)
  cancelled-Left JobStatus.failed is l = absurd (cc)
  cancelled-Left JobStatus.cancelled is l = absurd (cc)

  may_fail : (st : JobStatus) → is_leased st ≡ true → may_complete st JobStatus.failed ≡ true
  unfolding may_complete
  may_fail JobStatus.running l = refl
  may_fail JobStatus.cancel_requested l = refl
  may_fail JobStatus.queued l = absurd (cc)
  may_fail JobStatus.succeeded l = absurd (cc)
  may_fail JobStatus.failed l = absurd (cc)
  may_fail JobStatus.cancelled l = absurd (cc)

  -- A failure with the worker's time of the next attempt.
  failure-Left :
      (code message : Option Text)
      → is_leased held.status ≡ true
      → held.attempt_count ≡ job.attempt_count
      → held.max_attempts ≡ job.max_attempts
      → Leaves s
          (if ltb job.attempt_count job.max_attempts then JobStatus.queued else JobStatus.failed)
          (complete s job.id job.organization_id
            record {
              target = JobStatus.failed;
              failure_code = code;
              failure_message = message;
              retry_at = retry_time w job now;
            }
            now)
  unfolding end_job
  failure-Left code message leased count max =
      elim (Bool-cases (ltb job.attempt_count job.max_attempts)) [
        | inl again ↦
            let fits : leb held.max_attempts held.attempt_count ≡ false = ground arith in
            let e : Ending = record {
              target = JobStatus.failed;
              failure_code = code;
              failure_message = message;
              retry_at = some (now + seconds w.retry_delay_seconds);
            } in
            let ends : end_job held e now
                ≡ ok (
                  retry_later held e (now + seconds w.retry_delay_seconds),
                  EventType.job_retry_scheduled,
                ) =
              rw (fits, if◌then◌else◌) refl in
            rw (again, if◌then◌else◌)
              (complete-Leaves s _ _ e now held _ _ got (may_fail held.status leased) ends refl
                refl)
        | inr over ↦
            rw (over, if◌then◌else◌)
              (complete-Leaves s _ _ _ now held _ _ got (may_fail held.status leased) refl refl
                refl)
      ]

  timed_out-Left :
      (st : JobStatus)
      → held.status ≡ st
      → is_leased st ≡ true
      → held.attempt_count ≡ job.attempt_count
      → held.max_attempts ≡ job.max_attempts
      → Leaves s
          (if is_asked st
            then JobStatus.cancelled
            else if ltb job.attempt_count job.max_attempts
            then JobStatus.queued
            else JobStatus.failed)
          (finish_timed_out w s job now)
  unfolding finish_timed_out is_asked end_job may_complete
  timed_out-Left JobStatus.running is l count max =
      rw (got, ◌>>=◌, is) (failure-Left _ _ (rw is refl) count max)
  timed_out-Left JobStatus.cancel_requested is l count max =
      rw (got, ◌>>=◌, is)
        (complete-Leaves s _ _ (plain JobStatus.cancelled) now held _ _ got (rw is refl) refl refl
          refl)
  timed_out-Left JobStatus.queued is l count max = absurd (cc)
  timed_out-Left JobStatus.succeeded is l count max = absurd (cc)
  timed_out-Left JobStatus.failed is l count max = absurd (cc)
  timed_out-Left JobStatus.cancelled is l count max = absurd (cc)

-- For a job that is still leased, with the attempts that the worker was told, each way of ending
-- leaves the status of the table, no worker and no heartbeat; only the report of a cancellation
-- that nobody requested is refused.
pub finish-Left :
    (w : BackgroundWorker) (s : Store) (job : WorkerJob) (p : Processed) (now : ℕ) (held : Job)
    → get s job.id job.organization_id ≡ ok held
    → is_leased held.status ≡ true
    → held.attempt_count ≡ job.attempt_count
    → held.max_attempts ≡ job.max_attempts
    → Left s
        (left_status p (is_asked held.status) (ltb job.attempt_count job.max_attempts))
        (finish w s job p now)
unfolding finish left_status finish_failed finish_timed_out is_asked
finish-Left w s job done now held got leased count max =
    done-Left w s job now held got held.status refl leased
finish-Left w s job job_cancelled now held got leased count max =
    cancelled-Left w s job now held got held.status refl leased
finish-Left w s job job_timed_out now held got leased count max =
    timed_out-Left w s job now held got held.status refl leased count max
finish-Left w s job failed now held got leased count max =
    failure-Left w s job now held got _ _ leased count max
