-- ===== src/Jobs/Evolution.antt =====
-- What a step does to the rows: it adds one valid queued job, deletes expired ones, or every row stays
-- or makes one change of its state machine.
use mathlib.Core.List.{Memᴰ}
use reconcileflow_ai.Prelude.{
  ℕ, ◌≡◌, ◌⊎◌, refl, sym, inl, inr, true, false, Option, List, [], ◌∷◌, ◌++◌, map, arith, ltb, ◌==◌,
  ap, ◌≤◌, All, if◌then◌else◌, Bool-cases, Bool, ◌∙◌, filter, not, ◌&&◌,
}
use reconcileflow_ai.Jobs.Records.{Job, JobPriority, is_queued, is_terminal}
use reconcileflow_ai.Jobs.Store.{Store, put_job, get, ok}
use reconcileflow_ai.Jobs.Queue.{new_job, recover_stale, is_stale, is_failed, requeue_job}
use reconcileflow_ai.Jobs.Completion.{may_complete}
use reconcileflow_ai.Jobs.Claim.{claimable}
use reconcileflow_ai.Jobs.Expiry.{expired, batch, selected, delete_expired_terminal}
use reconcileflow_ai.Jobs.Steps.{Step, Retries, Deletes}
use reconcileflow_ai.Jobs.Validity.{IsValid}
use reconcileflow_ai.Jobs.Transitions.{Change, Change-id, Change-IsValid}
use reconcileflow_ai.Jobs.Effects.{
  create_effect, complete_effect, heartbeat_effect, update_progress_effect,
  request_cancellation_effect, retry_failed_effect, claim_next_effect,
}
use reconcileflow_ai.Jobs.Table.{find?-Memᴰ, Unique, Rows, get-Memᴰ, put_job-Rows, Rows-refl}
use reconcileflow_ai.Jobs.Recovery.{recover_if, recover_stale_jobs}
use reconcileflow_ai.Jobs.Priority.{next_job-some}

-- A change that puts a failed job back into the queue is one that is allowed.
abbrev pub Allowed : (Job → ℕ → Type 0) → {x y : Job} → Change x y → Type 0
Allowed A {x} (Change.requeued at _ _) = A x at
Allowed A _ = Unit

-- A row stays or changes once, as is allowed.
abbrev pub Moves : (Job → ℕ → Type 0) → Job → Job → Type 0
Moves A x y = (x ≡ y) ⊎ ((c : Change x y) × Allowed A c)

module _ (A : Job → ℕ → Type 0) where
  pub Moves-id : (x y : Job) → Moves A x y → y.id ≡ x.id
  Moves-id x y (inl e) = rw e
  Moves-id x y (inr (c, _)) = Change-id x y c

  pub Moves-IsValid : (x y : Job) → Moves A x y → IsValid x → IsValid y
  Moves-IsValid x y (inl e) v = rw (sym e) v
  Moves-IsValid x y (inr (c, _)) v = Change-IsValid x y c v

-- A job that has ended changes by a manual retry of a failure only, and one that is allowed.
pub Change_of_terminal :
    (A : Job → ℕ → Type 0) (job job' : Job) (c : Change job job')
    → Allowed A c
    → is_terminal job.status ≡ true
    → (at : ℕ) × A job at × (is_failed job.status ≡ true) × (job' ≡ requeue_job job at)
unfolding may_complete
Change_of_terminal A job job' (Change.leased w at q h e) a t = absurd (ground arith)
Change_of_terminal A job job' (Change.renewed at h e) a t = absurd (ground arith)
Change_of_terminal A job job' (Change.advanced p m low h e) a t = absurd (ground arith)
Change_of_terminal A job job' (Change.asked at h e) a t = absurd (ground arith)
Change_of_terminal A job job' (Change.recovered at h e) a t = absurd (ground arith)
Change_of_terminal A job job' (Change.requeued at h e) a t = (at, a, h, e)
Change_of_terminal A job job' (Change.ended e at _ h k) a t = absurd (ground arith)

-- The new row of `create`.
abbrev pub Created : Store → Store → Type 0
Created s s' =
    (job : Job) × (s'.jobs ≡ s.jobs ++ job ∷ [])
    × IsValid job
    × (is_queued job.status ≡ true)
    × All (λ j. (j.id == job.id) ≡ false) s.jobs

-- The rows without some.
abbrev pub Dropped : (Job → Type 0) → Store → Store → Type 0
Dropped D s s' =
    (keep : Job → Bool) × (s'.jobs ≡ filter keep s.jobs) × ((job : Job) → keep job ≡ false → D job)

changed :
    (A : Job → ℕ → Type 0) (s s' : Store) (job job' : Job)
    → Unique s.jobs
    → Memᴰ job s.jobs
    → (c : Change job job') → Allowed A c
    → s'.jobs ≡ put_job job' s.jobs
    → Rows (Moves A) s.jobs s'.jobs
changed A s s' job job' u m c a e =
    rw e (
      put_job-Rows (Moves A) (λ j. inl refl) job job' s.jobs u m (Change-id job job' c)
        (inr (c, a)))

into_rows :
    (A : Job → ℕ → Type 0) (s s' : Store) (jobs : List Job)
    → s'.jobs ≡ jobs
    → Rows (Moves A) s.jobs jobs
    → Rows (Moves A) s.jobs s'.jobs
into_rows A s s' jobs e rows = rw e rows

get_names :
    (s : Store) (job_id organization_id : ℕ) (job : Job)
    → get s job_id organization_id ≡ ok job
    → (job_id ≡ job.id) × (organization_id ≡ job.organization_id)
unfolding get
get_names s job_id organization_id job h =
    let passes =
      (find?-Memᴰ (λ j. j.id == job_id && j.organization_id == organization_id) job s.jobs
        (ground arith)).1 in
    (ground arith, ground arith)

recover_if-Moves :
    (A : Job → ℕ → Type 0) (stale_before at : ℕ) (j : Job)
    → Moves A j (recover_if (is_stale stale_before) at j)
unfolding recover_if is_stale
recover_if-Moves A stale_before at j = elim (Bool-cases (is_stale stale_before j)) [
  | inl e ↦ rw (e, if◌then◌else◌) (inr (Change.recovered at (ground arith) refl, tt))
  | inr e ↦ rw (e, if◌then◌else◌) (inl refl)
]

map_recover-Rows :
    (A : Job → ℕ → Type 0) (stale_before at : ℕ) (jobs : List Job)
    → Rows (Moves A) jobs (map (recover_if (is_stale stale_before) at) jobs)
map_recover-Rows A stale_before at [] = Rows.no_rows
map_recover-Rows A stale_before at (j ∷ jobs) =
    Rows.row j (recover_if (is_stale stale_before) at j) jobs
      (map (recover_if (is_stale stale_before) at) jobs) (recover_if-Moves A stale_before at j)
      (map_recover-Rows A stale_before at jobs)

claimable_parts :
    (at : ℕ) (o : Option ℕ) (job : Job)
    → claimable at o job ≡ true
    → (is_queued job.status ≡ true) × (ltb job.attempt_count job.max_attempts ≡ true)
unfolding claimable
claimable_parts at o job h = (ground arith, ground arith)

new_job-IsValid :
    (id now o r sch m t : ℕ) (p : JobPriority)
    → 1 ≤ m
    → 30 ≤ t
    → IsValid (new_job id now o r sch m t p)
unfolding new_job
new_job-IsValid id now o r sch m t p positive long =
    ((omega arith, positive, long, omega arith, omega arith, omega arith), (refl, refl, refl, refl))

pub Step-Rows :
    (s s' : Store) (step : Step s s')
    → Unique s.jobs
    → Created s s' ⊎ (Dropped (Deletes step) s s' ⊎ Rows (Moves (Retries step)) s.jobs s'.jobs)
Step-Rows s s' (Step.created id now o r sch m t p job new h) u =
    let (positive, long, e, jobs, events) = create_effect s id now o r sch m t p s' job h in
    inl (
      job,
      jobs,
      rw e (new_job-IsValid id now o r sch m t p positive long),
      rw e (unfold new_job in refl),
      rw e (unfold new_job in new),
    )
Step-Rows s s' (Step.claimed w at o aging found h) u =
    elim (claim_next_effect s w at o aging s' found h) [
      | inl (empty, nothing, same_store) ↦ inr (
          inr (
            into_rows _ s s' s.jobs (ap (λ (v : Store). v.jobs) same_store)
              (Rows-refl (Moves _) (λ j. inl refl) s.jobs)))
      | inr (job, chosen, eq, written) ↦
          let (m, may, least) = next_job-some s.jobs at o aging job chosen in
          let (q, below) = claimable_parts at o job may in
          inr (inr (changed _ s s' job _ u m (Change.leased _ at q below refl) tt written.0))
    ]
Step-Rows s s' (Step.beaten i o w at job' h) u =
    let (job, got, leased, e, jobs, events) = heartbeat_effect s i o w at s' job' h in
    inr (
      inr (changed _ s s' job job' u (get-Memᴰ s i o job got) (Change.renewed at leased e) tt jobs))
Step-Rows s s' (Step.advanced i o p m at job' h) u =
    let (job, got, low, leased, e, w) = update_progress_effect s i o p m at s' job' h in
    inr (
      inr (
        changed _ s s' job job' u (get-Memᴰ s i o job got) (Change.advanced p m low leased e) tt
          w.0))
Step-Rows s s' (Step.asked_to_cancel i o at job' h) u =
    let (job, got, may, e, w) = request_cancellation_effect s i o at s' job' h in
    inr (inr (changed _ s s' job job' u (get-Memᴰ s i o job got) (Change.asked at may e) tt w.0))
Step-Rows s s' (Step.recovered stale_before at n h) u =
    let e : (recover_stale s stale_before at).0 ≡ s' = ap (λ r. r.0) h in
    inr (
      inr (
        into_rows _ s s' _
          (ap (λ (v : Store). v.jobs) (sym e) ∙ recover_stale_jobs s stale_before at u)
          (map_recover-Rows _ stale_before at s.jobs)))
Step-Rows s s' (Step.retried i o limit at job' h) u =
    let (job, got, failed, below, e, w) = retry_failed_effect s i o limit at s' job' h in
    let (same_id, same_organization) = get_names s i o job got in
    inr (
      inr (
        changed _ s s' job job' u (get-Memᴰ s i o job got) (Change.requeued at failed e)
          (same_id, same_organization, refl) w.0))
Step-Rows s s' (Step.completed i o ending at job' h) u =
    let (job, t, got, may, ended, w) = complete_effect s i o ending at s' job' h in
    inr (
      inr (
        changed _ s s' job job' u (get-Memᴰ s i o job got) (Change.ended ending at t may ended) tt
          w.0))
Step-Rows s s' (Step.deleted c limit n positive h) u =
    let e : (delete_expired_terminal s c limit).0 ≡ s' = ap (λ r. r.0) h in
    let ids : List Job = batch c limit s.jobs in
    inr (
      inl (
        λ j. not (selected ids j.id && expired c j),
        rw (sym e) (unfold delete_expired_terminal in refl),
        λ j dropped. ground arith,
      ))
