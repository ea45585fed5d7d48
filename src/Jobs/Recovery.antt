-- ===== src/Jobs/Recovery.antt =====
-- `recover_stale` as one pass over the table: it writes record after record what a map would.
use reconcileflow_ai.Prelude.{
  ℕ, ◌≡◌, refl, inl, inr, Bool, true, false, List, [], ◌∷◌, map, filter, arith, ◌==◌, if◌then◌else◌,
  Bool-cases, All, ap, ◌∙◌,
}
use reconcileflow_ai.Prelude.Members.{All-filter, All-map_of}
use reconcileflow_ai.Jobs.Records.{Job, JobEvent}
use reconcileflow_ai.Jobs.Store.{Store, put_job, save, append_event}
use reconcileflow_ai.Jobs.Queue.{recover_job, recover_each, recover_stale, is_stale}
use reconcileflow_ai.Jobs.Effects.{Grown, append_event-Grown}
use reconcileflow_ai.Jobs.Table.{Unique, put_job_absent}

-- The rows after the writes of the loop.
unfoldable recovered_rows : List Job → List Job → ℕ → List Job
recovered_rows rows [] at = rows
recovered_rows rows (r ∷ records) at = recovered_rows (put_job (recover_job r at) rows) records at

recover_each_jobs :
    (records : List Job) (at : ℕ) (s : Store)
    → (recover_each s records at).jobs ≡ recovered_rows s.jobs records at
unfolding recover_each recovered_rows append_event
recover_each_jobs [] at s = refl
recover_each_jobs (r ∷ records) at s = recover_each_jobs records at _

recover_each_events :
    (events : List JobEvent) (records : List Job) (at : ℕ) (s : Store)
    → Grown events s.events
    → Grown events (recover_each s records at).events
unfolding recover_each
recover_each_events events [] at s g = g
recover_each_events events (r ∷ records) at s g =
    recover_each_events events records at _
      (append_event-Grown (save s (recover_job r at)) (recover_job r at) _ at _ events g)

pub recover_job_id : (job : Job) (at : ℕ) → (recover_job job at).id ≡ job.id
unfolding recover_job
recover_job_id job at = ground arith

-- A row that no record of the loop has the key of stays.
recovered_rows_skip :
    (x : Job) (rows records : List Job) (at : ℕ)
    → All (λ r. (r.id == x.id) ≡ false) records
    → recovered_rows (x ∷ rows) records at ≡ x ∷ recovered_rows rows records at
unfolding recovered_rows put_job
recovered_rows_skip x rows [] at h = refl
recovered_rows_skip x rows (r ∷ records) at h =
    let e = recover_job_id r at in
    let other : (x.id == (recover_job r at).id) ≡ false = ground arith in
    rw (other, if◌then◌else◌)
      (recovered_rows_skip x (put_job (recover_job r at) rows) records at h.1)

-- The row that recovery of the stale leases makes of a row.
unfoldable pub recover_if : (Job → Bool) → ℕ → Job → Job
recover_if p at job = if p job then recover_job job at else job

recovered_rows-map :
    (p : Job → Bool) (rows : List Job) (at : ℕ)
    → Unique rows
    → recovered_rows rows (filter p rows) at ≡ map (recover_if p at) rows
unfolding recovered_rows filter put_job recover_if
recovered_rows-map p [] at u = refl
recovered_rows-map p (x ∷ rows) at u =
    let apart : All (λ r. (r.id == x.id) ≡ false) (filter p rows) =
      All-map_of _ _ (λ r h. h.0) (filter p rows)
        (All-filter (λ r. (r.id == x.id) ≡ false) p rows u.0) in
    let e = recover_job_id x at in
    let key : (x.id == (recover_job x at).id) ≡ true = ground arith in
    elim (Bool-cases (p x)) [
      | inl stale ↦
          rw
            (
              stale,
              if◌then◌else◌,
              key,
              if◌then◌else◌,
              put_job_absent (recover_job x at) rows (rw e u.0),
            )
            (recovered_rows_skip (recover_job x at) rows (filter p rows) at (rw e apart)
              ∙ ap (λ ys. recover_job x at ∷ ys) (recovered_rows-map p rows at u.1))
      | inr fresh ↦
          rw (fresh, if◌then◌else◌)
            (recovered_rows_skip x rows (filter p rows) at apart
              ∙ ap (λ ys. x ∷ ys) (recovered_rows-map p rows at u.1))
    ]

pub recover_stale_jobs :
    (s : Store) (stale_before at : ℕ)
    → Unique s.jobs
    → (recover_stale s stale_before at).0.jobs ≡ map (recover_if (is_stale stale_before) at) s.jobs
unfolding recover_stale
recover_stale_jobs s stale_before at u =
    recover_each_jobs (filter (is_stale stale_before) s.jobs) at s
    ∙ recovered_rows-map (is_stale stale_before) s.jobs at u

pub recover_stale_events :
    (s : Store) (stale_before at : ℕ) → Grown s.events (recover_stale s stale_before at).0.events
unfolding recover_stale
recover_stale_events s stale_before at =
    recover_each_events s.events (filter (is_stale stale_before) s.jobs) at s Grown.unchanged

recover_if_fresh :
    (stale_before at : ℕ) (job : Job)
    → is_stale stale_before (recover_if (is_stale stale_before) at job) ≡ false
unfolding recover_if is_stale recover_job
recover_if_fresh stale_before at job = ground arith

map_recover-All :
    (stale_before at : ℕ) (jobs : List Job)
    → All (λ j. is_stale stale_before j ≡ false) (map (recover_if (is_stale stale_before) at) jobs)
map_recover-All stale_before at [] = tt
map_recover-All stale_before at (j ∷ jobs) =
    (recover_if_fresh stale_before at j, map_recover-All stale_before at jobs)

-- Where no two rows share a key, `recover_stale` turns each row whose lease is stale into its
-- recovery, keeps every other row, and leaves no stale lease.
pub recover_stale_lem :
    (s : Store) (stale_before at : ℕ)
    → Unique s.jobs
    → ((recover_stale s stale_before at).0.jobs
        ≡ map (recover_if (is_stale stale_before) at) s.jobs)
      × All (λ j. is_stale stale_before j ≡ false) (recover_stale s stale_before at).0.jobs
recover_stale_lem s stale_before at u =
    let e = recover_stale_jobs s stale_before at u in
    (e, rw e (map_recover-All stale_before at s.jobs))
