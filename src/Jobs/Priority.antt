-- ===== src/Jobs/Priority.antt =====
-- Which job `claim_next` takes: the order of the claim is total, and its least job is chosen.
use mathlib.Core.List.{Memᴰ}
use reconcileflow_ai.Prelude.{
  ℕ, ◌≤◌, ◌<◌, ◌≡◌, ◌⊎◌, refl, inl, inr, Bool, true, false, ◌&&◌, ◌||◌, Option, none, some, List,
  arith, leb, ltb, ◌==◌, filter, Bool-cases,
}
use reconcileflow_ai.Prelude.Sorting.{first-sort, first-sort-none}
use reconcileflow_ai.Prelude.Members.{filter-Memᴰ, Memᴰ-filter, All_of}
use reconcileflow_ai.Jobs.Records.{Job}
use reconcileflow_ai.Jobs.Claim.{eligible_since, effective_priority, claimable, claim_leb, next_job}

claim_leb_total :
    (at aging : ℕ) (a b : Job) → claim_leb at aging a b ≡ false → claim_leb at aging b a ≡ true
unfolding claim_leb
claim_leb_total at aging a b h = ground arith

leb_trans : (a b c : ℕ) → leb a b ≡ true → leb b c ≡ true → leb a c ≡ true
leb_trans a b c h k = ground arith

-- One more key in front of a transitive comparison, ascending or descending.
ascending_trans :
    (a b c : ℕ) (r s t : Bool)
    → (r ≡ true → s ≡ true → t ≡ true)
    → (ltb a b || (a == b && r)) ≡ true
    → (ltb b c || (b == c && s)) ≡ true
    → (ltb a c || (a == c && t)) ≡ true
ascending_trans a b c true true t f h k = let same = f refl refl in ground arith
ascending_trans a b c true false t f h k = ground arith
ascending_trans a b c false s t f h k = ground arith

descending_trans :
    (a b c : ℕ) (r s t : Bool)
    → (r ≡ true → s ≡ true → t ≡ true)
    → (ltb b a || (a == b && r)) ≡ true
    → (ltb c b || (b == c && s)) ≡ true
    → (ltb c a || (a == c && t)) ≡ true
descending_trans a b c true true t f h k = let same = f refl refl in ground arith
descending_trans a b c true false t f h k = ground arith
descending_trans a b c false s t f h k = ground arith

claim_leb_trans :
    (at aging : ℕ) (a b c : Job)
    → claim_leb at aging a b ≡ true
    → claim_leb at aging b c ≡ true
    → claim_leb at aging a c ≡ true
unfolding claim_leb
claim_leb_trans at aging a b c =
    descending_trans (effective_priority at aging a) (effective_priority at aging b)
      (effective_priority at aging c) _ _ _
      (ascending_trans (eligible_since a) (eligible_since b) (eligible_since c) _ _ _ (
        ascending_trans a.created_at b.created_at c.created_at _ _ _
          (λ h k. leb_trans a.id b.id c.id h k)))

-- What comes first in a claim: a higher effective priority, or the same and at least the same age.
abbrev pub Precedes : ℕ → ℕ → Job → Job → Type 0
Precedes at aging a b =
    (effective_priority at aging b < effective_priority at aging a)
    ⊎ ((effective_priority at aging b ≡ effective_priority at aging a)
        × (eligible_since a ≤ eligible_since b))

claim_leb→Precedes :
    (at aging : ℕ) (a b : Job) → claim_leb at aging a b ≡ true → Precedes at aging a b
unfolding claim_leb
claim_leb→Precedes at aging a b h = ground arith

-- The chosen job.
pub next_job-some :
    (jobs : List Job) (at : ℕ) (o : Option ℕ) (aging : ℕ) (job : Job)
    → next_job jobs at o aging ≡ some job
    → Memᴰ job jobs
      × (claimable at o job ≡ true)
      × ((k : Job) → Memᴰ k jobs → claimable at o k ≡ true → Precedes at aging job k)
unfolding next_job
next_job-some jobs at o aging job h =
    let (m, least) =
      first-sort (claim_leb at aging) (claim_leb_total at aging) (claim_leb_trans at aging)
        (filter (claimable at o) jobs) job h in
    let (here, may) = filter-Memᴰ job (claimable at o) jobs m in
    (
      here,
      may,
      λ k k_in k_may. claim_leb→Precedes at aging job k (
          All_of _ k (filter (claimable at o) jobs) least
            (Memᴰ-filter k (claimable at o) jobs k_in k_may)),
    )

pub next_job-none :
    (jobs : List Job) (at : ℕ) (o : Option ℕ) (aging : ℕ)
    → next_job jobs at o aging ≡ none
    → (k : Job) → Memᴰ k jobs
    → claimable at o k ≡ false
unfolding next_job
next_job-none jobs at o aging h k m =
    let empty = first-sort-none (claim_leb at aging) (filter (claimable at o) jobs) h in
    elim (Bool-cases (claimable at o k)) [
      | inl may ↦ elim (rw empty at (Memᴰ-filter k (claimable at o) jobs m may)) [ ]
      | inr not_now ↦ not_now
    ]
