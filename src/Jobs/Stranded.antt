-- ===== src/Jobs/Stranded.antt =====
-- A job whose last attempt is interrupted: recovery fails the job and leaves its run.
use reconcileflow_ai.Prelude.{
  ℕ, ◌≤◌, ◌≡◌, ◌≢◌, refl, sym, inl, inr, Bool, true, not, ◌&&◌, some, List, [], ◌∷◌, map, filter,
  arith, find?, any, leb, ltb, ◌==◌, if◌then◌else◌, Bool-cases,
}
use reconcileflow_ai.Jobs.Records.{Job, JobStatus, Run, RunStatus}
use reconcileflow_ai.Jobs.Store.{Store, ok, get, append_event}
use reconcileflow_ai.Jobs.Queue.{
  recover_job, recover_each, recover_stale, is_stale, retry_failed, is_failed, run_of, run_failed,
}
use reconcileflow_ai.Jobs.Effects.{bind_ok, require_then}
use reconcileflow_ai.Jobs.Table.{Unique}
use reconcileflow_ai.Jobs.Recovery.{recover_if, recover_stale_jobs}

retry_failed_run :
    (s : Store) (job_id organization_id limit at : ℕ) (r : Store × Job)
    → retry_failed s job_id organization_id limit at ≡ ok r
    → (job : Job) × (run : Run) × (get s job_id organization_id ≡ ok job)
      × (run_of s job organization_id ≡ ok run)
      × (run_failed run.status ≡ true)
unfolding retry_failed
retry_failed_run s job_id organization_id limit at r h =
    require_then (leb 1 limit) _ _ _ h (λ positive h1.
      bind_ok (get s job_id organization_id) _ _ h1 (λ job found h2.
        require_then (is_failed job.status) _ _ _ h2 (λ failed h3.
          require_then (ltb job.manual_retry_count limit) _ _ _ h3 (λ below h4.
            require_then (not (any (λ run_id. run_id == job.run_id) s.result_runs)) _ _ _ h4
              (λ unsaved h5. bind_ok (run_of s job organization_id) _ _ h5 (λ run found_run h6.
                require_then (run_failed run.status) _ _ _ h6
                  (λ run_is h7. (job, run, found, found_run, run_is))))))))

find?-map :
    (p : Job → Bool) (f : Job → Job)
    → ((j : Job) → p (f j) ≡ p j)
    → (xs : List Job) (x : Job) → find? p xs ≡ some x
    → find? p (map f xs) ≡ some (f x)
unfolding find?
find?-map p f same [] x h = absurd (cc)
find?-map p f same (y ∷ xs) x h = elim (Bool-cases (p y)) [
  | inl e ↦ rw (same y, e, if◌then◌else◌) (let is : y ≡ x = ground arith in rw is refl)
  | inr e ↦ rw (same y, e, if◌then◌else◌) (find?-map p f same xs x (ground arith))
]

recover_each_runs :
    (records : List Job) (at : ℕ) (s : Store) → (recover_each s records at).runs ≡ s.runs
unfolding recover_each append_event
recover_each_runs [] at s = refl
recover_each_runs (r ∷ records) at s = recover_each_runs records at _

recover_if_keys :
    (p : Job → Bool) (at : ℕ) (j : Job)
    → ((recover_if p at j).id ≡ j.id)
      × ((recover_if p at j).organization_id ≡ j.organization_id)
      × ((recover_if p at j).run_id ≡ j.run_id)
unfolding recover_if recover_job
recover_if_keys p at j = ground arith

get-recover_stale :
    (s : Store) (job_id organization_id stale_before at : ℕ) (job : Job)
    → Unique s.jobs
    → get s job_id organization_id ≡ ok job
    → get (recover_stale s stale_before at).0 job_id organization_id
      ≡ ok (recover_if (is_stale stale_before) at job)
unfolding get
get-recover_stale s job_id organization_id stale_before at job u h =
    let test : Job → Bool = λ j. j.id == job_id && j.organization_id == organization_id in
    let here : find? test s.jobs ≡ some job = ground arith in
    rw
      (
        recover_stale_jobs s stale_before at u,
        find?-map test (recover_if (is_stale stale_before) at)
            (λ j. let k = recover_if_keys (is_stale stale_before) at j in rw (k.0, k.1) refl) s.jobs
            job here,
      )
      refl

recovered_fails :
    (job : Job) (at : ℕ)
    → job.status ≡ JobStatus.running
    → job.max_attempts ≤ job.attempt_count
    → (recover_job job at).status ≡ JobStatus.failed
unfolding recover_job
recovered_fails job at is spent = ground arith

recover_stale_runs : (s : Store) (c at : ℕ) → (recover_stale s c at).0.runs ≡ s.runs
unfolding recover_stale
recover_stale_runs s c at = recover_each_runs (filter (is_stale c) s.jobs) at s

run_of-recover_stale :
    (s : Store) (o c at : ℕ) (job : Job) (run : Run)
    → run_of s job o ≡ ok run
    → run_of (recover_stale s c at).0 (recover_if (is_stale c) at job) o ≡ ok run
unfolding run_of
run_of-recover_stale s o c at job run h =
    rw (recover_stale_runs s c at, (recover_if_keys (is_stale c) at job).2) h

-- Where no two jobs share a key: when the last attempt of a job has a stale lease and its run is
-- running, `recover_stale` leaves the job failed, and afterwards no call of `retry_failed` for it
-- returns, whatever the limit and the time.
pub recovered_cannot_be_retried :
    (s : Store) (job_id organization_id stale_before at limit later : ℕ) (job : Job) (run : Run)
    (r : Store × Job)
    → Unique s.jobs
    → get s job_id organization_id ≡ ok job
    → run_of s job organization_id ≡ ok run
    → run.status ≡ RunStatus.running
    → job.status ≡ JobStatus.running
    → is_stale stale_before job ≡ true
    → job.max_attempts ≤ job.attempt_count
    → (get (recover_stale s stale_before at).0 job_id organization_id ≡ ok (recover_job job at))
      × ((recover_job job at).status ≡ JobStatus.failed)
      × (retry_failed (recover_stale s stale_before at).0 job_id organization_id limit later ≢ ok r)
unfolding recover_if run_failed
recovered_cannot_be_retried s job_id o c at limit later job run r u found has_run is_run is_job
      stale spent =
    let got = get-recover_stale s job_id o c at job u found in
    let kept = run_of-recover_stale s o c at job run has_run in
    (
      rw (stale, if◌then◌else◌) at got,
      recovered_fails job at is_job spent,
      λ h.
          let (j, run', got', kept', failed) =
            retry_failed_run (recover_stale s c at).0 job_id o limit later r h in
          let same : recover_if (is_stale c) at job ≡ j = cc in
          let same_run : run ≡ run' = cc in
          let claims : run_failed run.status ≡ true = rw (sym same_run) at failed in
          let absurd_claim : run_failed RunStatus.running ≡ true = rw is_run at claims in cc,
    )
