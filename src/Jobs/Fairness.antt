-- ===== src/Jobs/Fairness.antt =====
-- Which job `claim_next` takes, and how long a job waits for its turn.
use mathlib.Core.List.{Memᴰ}
use reconcileflow_ai.Prelude.{
  ℕ, ◌+◌, ◌*◌, ◌≤◌, ◌≡◌, ◌⊎◌, refl, ◌∙◌, inl, inr, true, false, Option, none, some, arith, leb,
  Text, strip, Option-cases,
}
use reconcileflow_ai.Jobs.Records.{Job, seconds}
use reconcileflow_ai.Jobs.Store.{Store, ok, put_job, append_event}
use reconcileflow_ai.Jobs.Claim.{
  claim_next, claim_found, claimable, valid_worker, next_job, lease_job, eligible_since,
  effective_priority,
}
use reconcileflow_ai.Jobs.Effects.{claim_next_effect}
use reconcileflow_ai.Jobs.Priority.{Precedes, next_job-some, next_job-none}

claim_next_found :
    (s : Store) (w : Text) (at : ℕ) (o : Option ℕ) (aging : ℕ) (chosen : Option Job)
    → valid_worker (strip w) ≡ true
    → 30 ≤ aging
    → next_job s.jobs at o aging ≡ chosen
    → claim_next s w at o aging ≡ claim_found s (strip w) at chosen
unfolding claim_next
claim_next_found s w at o aging chosen named aged e =
    let long : leb 30 aging ≡ true = ground arith in rw (named, long, e)

claim_found-some :
    (s : Store) (worker_id : Text) (at : ℕ) (job : Job)
    → (s' : Store) × (claim_found s worker_id at (some job)
        ≡ ok (s', some (lease_job job worker_id at)))
      × (s'.jobs ≡ put_job (lease_job job worker_id at) s.jobs)
unfolding claim_found append_event
claim_found-some s worker_id at job = (_, refl, refl)

-- With a valid worker name and aging, `claim_next` returns. Either no job may be claimed and the
-- store stays, or one that may be claimed, and that no other precedes, is leased to the worker and
-- the other rows stay.
pub claim_next_lem :
    (s : Store) (w : Text) (at : ℕ) (o : Option ℕ) (aging : ℕ)
    → valid_worker (strip w) ≡ true
    → 30 ≤ aging
    → ((claim_next s w at o aging ≡ ok (s, none))
        × ((k : Job) → Memᴰ k s.jobs → claimable at o k ≡ false))
      ⊎ ((job : Job) × (s' : Store) × (claim_next s w at o aging
            ≡ ok (s', some (lease_job job (strip w) at)))
          × (s'.jobs ≡ put_job (lease_job job (strip w) at) s.jobs)
          × Memᴰ job s.jobs
          × (claimable at o job ≡ true)
          × ((k : Job) → Memᴰ k s.jobs → claimable at o k ≡ true → Precedes at aging job k))
unfolding claim_found
claim_next_lem s w at o aging named aged = elim (Option-cases (next_job s.jobs at o aging)) [
  | inl nothing ↦ inl (
    claim_next_found s w at o aging none named aged nothing,
    next_job-none s.jobs at o aging nothing,
  )
  | inr (job, chosen) ↦
      let e = claim_next_found s w at o aging (some job) named aged chosen in
      let (m, may, least) = next_job-some s.jobs at o aging job chosen in
      let (s', found, rows) = claim_found-some s (strip w) at job in
      inr (job, s', e ∙ found, rows, m, may, least)
]

effective_priority_le : (at aging : ℕ) (job : Job) → effective_priority at aging job ≤ 2
unfolding effective_priority
effective_priority_le at aging job = ground arith

aged_priority :
    (at aging : ℕ) (job : Job)
    → eligible_since job + seconds (aging * 2) ≤ at
    → effective_priority at aging job ≡ 2
unfolding effective_priority
aged_priority at aging job h = ground arith

-- A job that may be claimed and has waited twice the aging time, whatever its priority, is not
-- passed over for a job that became eligible after it.
pub claim_next_waits_its_turn :
    (s : Store) (w : Text) (at : ℕ) (o : Option ℕ) (aging : ℕ) (s' : Store) (job' k : Job)
    → claim_next s w at o aging ≡ ok (s', some job')
    → Memᴰ k s.jobs
    → claimable at o k ≡ true
    → eligible_since k + seconds (aging * 2) ≤ at
    → (job : Job) × Memᴰ job s.jobs
      × (job' ≡ lease_job job (strip w) at)
      × (eligible_since job ≤ eligible_since k)
claim_next_waits_its_turn s w at o aging s' job' k h m may old =
    elim (claim_next_effect s w at o aging s' (some job') h) [
      | inl (e, nothing, same_store) ↦ absurd (cc)
      | inr (job, chosen, e, written) ↦
          let (here, ready, least) = next_job-some s.jobs at o aging job chosen in
          let full = aged_priority at aging k old in
          let top = effective_priority_le at aging job in
          (
            job,
            here,
            cc,
            elim (least k m may) [ inl higher ↦ omega arith | inr (same_priority, age) ↦ age ],
          )
    ]
