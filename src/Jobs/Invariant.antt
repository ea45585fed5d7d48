-- ===== src/Jobs/Invariant.antt =====
-- What holds in every store that calls on the queue reach.
use mathlib.Core.List.{Memᴰ}
use reconcileflow_ai.Prelude.{
  ℕ, ◌≡◌, ◌⊎◌, sym, inl, inr, true, false, List, [], ◌∷◌, ◌++◌, arith, ◌==◌, subst, All, All-append,
  Bool, filter, Bool-cases, if◌then◌else◌,
}
use reconcileflow_ai.Prelude.Members.{All-kept, Memᴰ-append, Memᴰ-filter}
use reconcileflow_ai.Jobs.Records.{Job, is_terminal}
use reconcileflow_ai.Jobs.Store.{Store}
use reconcileflow_ai.Jobs.Queue.{requeue_job, is_failed}
use reconcileflow_ai.Jobs.Steps.{Step, Retries, Deletes, Reachable}
use reconcileflow_ai.Jobs.Validity.{IsValid}
use reconcileflow_ai.Jobs.Table.{Unique, Rows-All, Rows-Unique, Rows-Memᴰ}
use reconcileflow_ai.Jobs.Evolution.{Moves, Moves-id, Moves-IsValid, Change_of_terminal, Step-Rows}

append_All-false :
    (n : ℕ) (jobs : List Job) (job : Job)
    → All (λ k. (k.id == n) ≡ false) jobs
    → (job.id == n) ≡ false
    → All (λ k. (k.id == n) ≡ false) (jobs ++ job ∷ [])
append_All-false n jobs job h k = All-append (λ k. (k.id == n) ≡ false) jobs (job ∷ []) h (k, tt)

Unique-append :
    (jobs : List Job) (job : Job)
    → Unique jobs
    → All (λ j. (j.id == job.id) ≡ false) jobs
    → Unique (jobs ++ job ∷ [])
Unique-append [] job u h = (tt, tt)
Unique-append (j ∷ jobs) job u h =
    (append_All-false j.id jobs job u.0 (ground arith), Unique-append jobs job u.1 h.1)

filter-Unique : (keep : Job → Bool) (jobs : List Job) → Unique jobs → Unique (filter keep jobs)
unfolding filter
filter-Unique keep [] u = tt
filter-Unique keep (j ∷ jobs) u = elim (Bool-cases (keep j)) [
  | inl e ↦
      rw (e, if◌then◌else◌)
        (All-kept (λ k. (k.id == j.id) ≡ false) keep jobs u.0, filter-Unique keep jobs u.1)
  | inr e ↦ rw (e, if◌then◌else◌) (filter-Unique keep jobs u.1)
]

pub Step-Unique : (s s' : Store) → Step s s' → Unique s.jobs → Unique s'.jobs
Step-Unique s s' step u = elim (Step-Rows s s' step u) [
  | inl (job, e, v, q, apart) ↦ rw e (Unique-append s.jobs job u apart)
  | inr (inl (keep, e, _)) ↦ rw e (filter-Unique keep s.jobs u)
  | inr (inr rows) ↦
      Rows-Unique (Moves (Retries step)) s.jobs s'.jobs (Moves-id (Retries step)) rows u
]

Step-IsValid : (s s' : Store) → Step s s' → Unique s.jobs → All IsValid s.jobs → All IsValid s'.jobs
Step-IsValid s s' step u h = elim (Step-Rows s s' step u) [
  | inl (job, e, v, q, apart) ↦ rw e (All-append IsValid s.jobs (job ∷ []) h (v, tt))
  | inr (inl (keep, e, _)) ↦ rw e (All-kept IsValid keep s.jobs h)
  | inr (inr rows) ↦
      Rows-All (Moves (Retries step)) IsValid s.jobs s'.jobs (Moves-IsValid (Retries step)) rows h
]

-- In every store that calls reach from empty tables no two jobs share a key, and every job keeps
-- its counters within their limits and has a worker, a heartbeat, a deadline and an end date
-- exactly in the statuses that have one.
pub Reachable-IsValid : (s : Store) → Reachable s → Unique s.jobs × All IsValid s.jobs
Reachable-IsValid _ (Reachable.begun s no_jobs no_events) = rw no_jobs (tt, tt)
Reachable-IsValid _ (Reachable.stepped s s' r step) =
    let (u, h) = Reachable-IsValid s r in (Step-Unique s s' step u, Step-IsValid s s' step u h)

-- A job that has ended stands unchanged in the table after any call, unless it had failed and the
-- call is a manual retry of this job, after which it is queued again, or the call is a deletion with
-- cutoffs that the job has passed.
pub Step_keeps_terminal :
    (s s' : Store) (job : Job) (step : Step s s')
    → Unique s.jobs
    → Memᴰ job s.jobs
    → is_terminal job.status ≡ true
    → Memᴰ job s'.jobs
      ⊎ (((at : ℕ) × Retries step job at
            × (is_failed job.status ≡ true)
            × Memᴰ (requeue_job job at) s'.jobs)
          ⊎ Deletes step job)
Step_keeps_terminal s s' job step u m t = elim (Step-Rows s s' step u) [
  | inl (new, e, v, q, apart) ↦ inl (rw e (Memᴰ-append (new ∷ []) m))
  | inr (inl (keep, e, why)) ↦ elim (Bool-cases (keep job)) [
    | inl kept ↦ inl (rw e (Memᴰ-filter job keep s.jobs m kept))
    | inr dropped ↦ inr (inr (why job dropped))
  ]
  | inr (inr rows) ↦
      let (y, here, move) = Rows-Memᴰ (Moves (Retries step)) job s.jobs s'.jobs rows m in
      elim move [
        | inl e ↦ inl (subst (λ k. Memᴰ k s'.jobs) (sym e) here)
        | inr (c, a) ↦
            let (at, retried, failed, e) = Change_of_terminal (Retries step) job y c a t in
            inr (inl (at, retried, failed, subst (λ k. Memᴰ k s'.jobs) e here))
      ]
]
