-- ===== src/Jobs/Effects.antt =====
-- What each call on the queue does to the table of jobs and to the table of events.
mod Writing
pub use Writing.*
use reconcileflow_ai.Prelude.{
  ℕ, ◌+◌, ◌≤◌, ◌≡◌, refl, sym, inl, inr, Bool, true, false, Option, none, some, List, [], ◌∷◌, ◌++◌,
  Text, arith, any, not, ◌==◌, ltb, leb, leb→le, ltb→lt, if◌then◌else◌, strip, ◌<◌, ◌⊎◌, ◌&&◌,
}
use reconcileflow_ai.Jobs.Records.{
  Job, JobPriority, EventType, EventDetails, JobEvent, is_queued, is_leased,
}
use reconcileflow_ai.Jobs.Store.{
  Store, Result, ok, raise, PersistenceError, ◌>>=◌, ◌>>◌, require, get, put_job, save,
  append_event, last_sequence,
}
use reconcileflow_ai.Jobs.Queue.{
  new_job, create, heartbeat, update_progress, request_cancellation, retry_failed, cancel_job,
  may_cancel, requeue_job, clipped, is_failed, run_of, run_failed,
}
use reconcileflow_ai.Jobs.Claim.{claim_next, claim_found, valid_worker, next_job, lease_job}
use reconcileflow_ai.Jobs.Completion.{complete, Ending, may_complete, end_job}

pub complete_effect :
    (s : Store) (job_id organization_id : ℕ) (e : Ending) (at : ℕ) (s' : Store) (job' : Job)
    → complete s job_id organization_id e at ≡ ok (s', job')
    → (job : Job) × (t : EventType) × (get s job_id organization_id ≡ ok job)
      × (may_complete job.status e.target ≡ true)
      × (end_job job e at ≡ ok (job', t))
      × Writes s job' s'
unfolding complete
complete_effect s job_id organization_id e at s' job' h =
    bind_ok (get s job_id organization_id) _ _ h (λ job found h1.
      require_then (may_complete job.status e.target) _ _ _ h1 (λ test h2.
        bind_ok (end_job job e at) _ _ h2 (λ r ended h3.
          let (eq, w) = appended s s' r.0 job' r.1 at _ h3 in
          (job, r.1, found, test, rw (sym eq) ended, w))))

pub heartbeat_effect :
    (s : Store) (job_id organization_id : ℕ) (w : Text) (at : ℕ) (s' : Store) (job' : Job)
    → heartbeat s job_id organization_id w at ≡ ok (s', job')
    → (job : Job) × (get s job_id organization_id ≡ ok job)
      × (is_leased job.status ≡ true)
      × (job' ≡ record job { heartbeat_at = some at })
      × (s'.jobs ≡ put_job job' s.jobs)
      × (s'.events ≡ s.events)
unfolding heartbeat
heartbeat_effect s job_id organization_id w at s' job' h = ground arith

pub update_progress_effect :
    (s : Store) (job_id organization_id progress : ℕ) (message : Option Text) (at : ℕ) (s' : Store)
    (job' : Job)
    → update_progress s job_id organization_id progress message at ≡ ok (s', job')
    → (job : Job) × (get s job_id organization_id ≡ ok job)
      × (progress ≤ 100)
      × (is_leased job.status ≡ true)
      × (job' ≡ record job { progress_percentage = progress; status_message = clipped 500 message })
      × Writes s job' s'
unfolding update_progress
update_progress_effect s job_id organization_id progress message at s' job' h =
    require_then (leb progress 100) _ _ _ h (λ low h1.
      bind_ok (get s job_id organization_id) _ _ h1 (λ job found h2.
        require_then (is_leased job.status) _ _ _ h2 (λ leased h3.
          let (eq, w) = appended s s' _ job' _ at _ h3 in
          (job, found, leb→le progress 100 low, leased, sym eq, w))))

pub request_cancellation_effect :
    (s : Store) (job_id organization_id at : ℕ) (s' : Store) (job' : Job)
    → request_cancellation s job_id organization_id at ≡ ok (s', job')
    → (job : Job) × (get s job_id organization_id ≡ ok job)
      × (may_cancel job.status ≡ true)
      × (job' ≡ cancel_job job at)
      × Writes s job' s'
unfolding request_cancellation
request_cancellation_effect s job_id organization_id at s' job' h =
    bind_ok (get s job_id organization_id) _ _ h (λ job found h1.
      require_then (may_cancel job.status) _ _ _ h1 (λ may h2.
        let (es, ej) = ok_parts _ s' _ job' h2 in
        let saved = Writes-save s (cancel_job job at) job _ at _ in
        (
          job,
          found,
          may,
          sym ej,
          rw (sym ej, sym es)
              (Writes-if s _ _ _ (is_queued job.status) (Writes-append_event s _ _ _ _ at _ saved)
                saved),
        )))

pub retry_failed_effect :
    (s : Store) (job_id organization_id limit at : ℕ) (s' : Store) (job' : Job)
    → retry_failed s job_id organization_id limit at ≡ ok (s', job')
    → (job : Job) × (get s job_id organization_id ≡ ok job)
      × (is_failed job.status ≡ true)
      × (job.manual_retry_count < limit)
      × (job' ≡ requeue_job job at)
      × Writes s job' s'
unfolding retry_failed
retry_failed_effect s job_id organization_id limit at s' job' h =
    require_then (leb 1 limit) _ _ _ h (λ positive h1.
      bind_ok (get s job_id organization_id) _ _ h1 (λ job found h2.
        require_then (is_failed job.status) _ _ _ h2 (λ failed h3.
          require_then (ltb job.manual_retry_count limit) _ _ _ h3 (λ below h4.
            require_then (not (any (λ run_id. run_id == job.run_id) s.result_runs)) _ _ _ h4
              (λ unsaved h5. bind_ok (run_of s job organization_id) _ _ h5 (λ run found_run h6.
                require_then (run_failed run.status) _ _ _ h6 (λ run_is h7.
                  let (es, ej) = ok_parts _ s' _ job' h7 in
                  (
                    job,
                    found,
                    failed,
                    ltb→lt _ _ below,
                    sym ej,
                    rw (sym ej, sym es)
                        (Writes-append_event s _ _ _ _ at _ (refl, Grown.unchanged)),
                  ))))))))

claim_found_effect :
    (s : Store) (worker_id : Text) (at : ℕ) (chosen : Option Job) (s' : Store) (found : Option Job)
    → claim_found s worker_id at chosen ≡ ok (s', found)
    → ((found ≡ none) × (chosen ≡ none) × (s' ≡ s))
      ⊎ ((job : Job) × (chosen ≡ some job)
          × (found ≡ some (lease_job job worker_id at))
          × Writes s (lease_job job worker_id at) s')
unfolding claim_found
claim_found_effect s worker_id at none s' found h =
    let (es, ef) = ok_parts s s' none found h in inl (sym ef, refl, sym es)
claim_found_effect s worker_id at (some job) s' found h =
    let (es, ef) = ok_parts _ s' _ found h in
    inr
      (job, refl, sym ef, rw (sym es) (Writes-append_event s _ _ _ _ at _ (refl, Grown.unchanged)))

pub claim_next_effect :
    (s : Store) (worker : Text) (at : ℕ) (organization_id : Option ℕ) (aging : ℕ) (s' : Store)
    (found : Option Job)
    → claim_next s worker at organization_id aging ≡ ok (s', found)
    → ((found ≡ none) × (next_job s.jobs at organization_id aging ≡ none) × (s' ≡ s))
      ⊎ ((job : Job) × (next_job s.jobs at organization_id aging ≡ some job)
          × (found ≡ some (lease_job job (strip worker) at))
          × Writes s (lease_job job (strip worker) at) s')
unfolding claim_next
claim_next_effect s worker at organization_id aging s' found h =
    require_then (valid_worker (strip worker)) _ _ _ h (λ named h1.
      require_then (leb 30 aging) _ _ _ h1 (λ aged h2.
        claim_found_effect s (strip worker) at (next_job s.jobs at organization_id aging) s' found
          h2))

pub create_effect :
    (s : Store) (id now o run_id scheduled_at max_attempts timeout_seconds : ℕ)
    (priority : JobPriority) (s' : Store) (job : Job)
    → create s id now o run_id scheduled_at max_attempts timeout_seconds priority ≡ ok (s', job)
    → (1 ≤ max_attempts)
      × (30 ≤ timeout_seconds)
      × (job ≡ new_job id now o run_id scheduled_at max_attempts timeout_seconds priority)
      × (s'.jobs ≡ s.jobs ++ job ∷ [])
      × Grown s.events s'.events
unfolding create append_event
create_effect s id now o run_id scheduled_at max_attempts timeout_seconds priority s' job h =
    require_then (leb 1 max_attempts) _ _ _ h (λ positive h1.
      require_then (leb 30 timeout_seconds) _ _ _ h1 (λ long h2.
        require_then (any (λ r. r.id == run_id && r.organization_id == o) s.runs) _ _ _ h2
          (λ run h3.
            require_then (not (any (λ j. j.run_id == run_id) s.jobs)) _ _ _ h3 (λ single h4.
              let (es, ej) = ok_parts _ s' _ job h4 in
              (
                leb→le 1 max_attempts positive,
                leb→le 30 timeout_seconds long,
                sym ej,
                rw (sym es, sym ej) refl,
                rw (sym es) (Grown.more s.events _ _ Grown.unchanged refl refl),
              )))))
