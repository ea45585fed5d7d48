-- ===== src/Maintenance/Cleanup.antt =====
-- The loop of the cleanup over batches of jobs.
use mathlib.Core.List.{Memᴰ}
use reconcileflow_ai.Prelude.{
  ℕ, zero, suc, ◌+◌, ◌<◌, ◌≤◌, ◌≡◌, refl, sym, ap, ◌∙◌, subst, inl, inr, Bool, true, false, not,
  ◌&&◌, some, List, [], ◌∷◌, filter, any, length, if◌then◌else◌, ltb, Bool-cases, All, arith,
}
use reconcileflow_ai.Prelude.Members.{All-map_of, Memᴰ-filter, filter-Memᴰ, All-filter}
use reconcileflow_ai.Prelude.Sorting.{sort, All-sort}
use reconcileflow_ai.Prelude.Keyed.{one, total, Keyed}
use reconcileflow_ai.Accounts.Ownership.{length-filter}
use reconcileflow_ai.Jobs.Records.{Job}
use reconcileflow_ai.Jobs.Store.{Store}
use reconcileflow_ai.Jobs.Expiry.{
  Cutoffs, expired, retention_leb, batch, selected, delete_expired_terminal, count_expired_terminal,
}
use reconcileflow_ai.Maintenance.Retention.{delete_jobs}
use reconcileflow_ai.Maintenance.Batches.{
  filter-Keyed, sort-Keyed, take-Keyed, distinct_le-total, take-All_of, take_short, sort-Memᴰ,
}

abbrev pub job_key : Job → ℕ
job_key j = j.id

-- The deleted rows of a round.
abbrev chosen : Cutoffs → ℕ → List Job → Job → Bool
chosen c limit jobs j = selected (batch c limit jobs) j.id && expired c j

abbrev kept : Cutoffs → ℕ → List Job → List Job
kept c limit jobs = filter (λ j. not (chosen c limit jobs j)) jobs

any_Memᴰ : (b : Job) (ids : List Job) → Memᴰ b ids → selected ids b.id ≡ true
unfolding selected any
any_Memᴰ b [] m = elim m [ ]
any_Memᴰ b (x ∷ ids) (Memᴰ.head e) = let k : x.id ≡ b.id = ap job_key (sym e) in ground arith
any_Memᴰ b (x ∷ ids) (Memᴰ.tail m) = ground (arith, any_Memᴰ b ids m)

-- A list whose elements are members.
All-members : (xs : List Job) → All (λ x. Memᴰ x xs) xs
All-members [] = tt
All-members (x ∷ xs) = (
  Memᴰ.head refl,
  All-map_of (λ y. Memᴰ y xs) (λ y. Memᴰ y (x ∷ xs)) (λ y m. Memᴰ.tail m) xs (All-members xs),
)

batch-All :
    (c : Cutoffs) (limit : ℕ) (jobs : List Job)
    → All (λ b. Memᴰ b jobs × (expired c b ≡ true)) (batch c limit jobs)
unfolding batch
batch-All c limit jobs = take-All_of _ limit (sort retention_leb (filter (expired c) jobs)) (
    All-sort (λ b. Memᴰ b jobs × (expired c b ≡ true)) retention_leb (filter (expired c) jobs)
      (All-filter (λ b. Memᴰ b jobs) (expired c) jobs (All-members jobs)))

batch_chosen :
    (c : Cutoffs) (limit : ℕ) (jobs : List Job)
    → All (λ b. Memᴰ b jobs × (chosen c limit jobs b ≡ true)) (batch c limit jobs)
batch_chosen c limit jobs = both (batch c limit jobs) (All-members _) (batch-All c limit jobs)
  where
    both :
        (bs : List Job)
        → All (λ b. Memᴰ b (batch c limit jobs)) bs
        → All (λ b. Memᴰ b jobs × (expired c b ≡ true)) bs
        → All (λ b. Memᴰ b jobs × (chosen c limit jobs b ≡ true)) bs
    both [] h k = tt
    both (b ∷ bs) h k =
        let (m, e) = k.0 in ((m, rw (any_Memᴰ b (batch c limit jobs) h.0, e) refl), both bs h.1 k.1)

batch-Keyed :
    (c : Cutoffs) (limit : ℕ) (jobs : List Job)
    → Keyed job_key jobs
    → Keyed job_key (batch c limit jobs)
unfolding batch
batch-Keyed c limit jobs u =
    take-Keyed job_key limit _
      (sort-Keyed job_key retention_leb _ (filter-Keyed job_key (expired c) jobs u))

-- At least the batch is deleted.
batch_le-deleted :
    (c : Cutoffs) (limit : ℕ) (jobs : List Job)
    → Keyed job_key jobs
    → length (batch c limit jobs) ≤ length (filter (chosen c limit jobs) jobs)
batch_le-deleted c limit jobs u = omega (
  arith,
  length-filter (chosen c limit jobs) jobs,
  distinct_le-total job_key (chosen c limit jobs) (batch c limit jobs) jobs u
      (batch-Keyed c limit jobs u) (batch_chosen c limit jobs),
)

-- A round that is not full leaves no expired job.
short_leaves_none :
    (c : Cutoffs) (limit : ℕ) (jobs : List Job) (j : Job)
    → Keyed job_key jobs
    → length (filter (chosen c limit jobs) jobs) < limit
    → Memᴰ j (kept c limit jobs)
    → expired c j ≡ false
unfolding batch
short_leaves_none c limit jobs j u h m =
    let (here, stays) = filter-Memᴰ j (λ j. not (chosen c limit jobs j)) jobs m in
    elim (Bool-cases (expired c j)) [
      | inr e ↦ e
      | inl e ↦
          let all = sort retention_leb (filter (expired c) jobs) in
          let small = batch_le-deleted c limit jobs u in
          let whole : batch c limit jobs ≡ all = take_short limit all (omega (arith, small, h)) in
          let found : Memᴰ j (batch c limit jobs) =
            subst (λ v. Memᴰ j v) (sym whole)
              (sort-Memᴰ retention_leb j (filter (expired c) jobs)
                (Memᴰ-filter j (expired c) jobs here e)) in
          let named = any_Memᴰ j (batch c limit jobs) found in absurd (ground arith)
    ]

module _ (q e : Job → Bool) where
  filter_chosen :
      (jobs : List Job)
      → filter (λ j. not (e j)) (filter (λ j. not (q j && e j)) jobs) ≡ filter (λ j. not (e j)) jobs
  unfolding filter
  filter_chosen [] = refl
  filter_chosen (j ∷ jobs) = elim (Bool-cases (e j)) [
    | inl h ↦ elim (Bool-cases (q j)) [
      | inl k ↦ rw (h, k, if◌then◌else◌, filter_chosen jobs) refl
      | inr k ↦ rw (h, k, if◌then◌else◌, h, filter_chosen jobs) refl
    ]
    | inr h ↦ elim (Bool-cases (q j)) [
      | inl k ↦ rw (h, k, if◌then◌else◌, h, filter_chosen jobs) refl
      | inr k ↦ rw (h, k, if◌then◌else◌, h, filter_chosen jobs) refl
    ]
  ]

  total_chosen :
      (jobs : List Job)
      → total (λ j. one (e j)) jobs
        ≡ length (filter (λ j. q j && e j) jobs)
          + total (λ j. one (e j)) (filter (λ j. not (q j && e j)) jobs)
  unfolding filter total
  total_chosen [] = refl
  total_chosen (j ∷ jobs) = ground (arith, total_chosen jobs)

  length_chosen :
      (jobs : List Job)
      → length (filter (λ j. q j && e j) jobs) + length (filter (λ j. not (q j && e j)) jobs)
        ≡ length jobs
  unfolding filter
  length_chosen [] = refl
  length_chosen (j ∷ jobs) = ground (arith, length_chosen jobs)

none_expired :
    (e : Job → Bool) (jobs : List Job)
    → All (λ j. e j ≡ false) jobs
    → (filter (λ j. not (e j)) jobs ≡ jobs) × (total (λ j. one (e j)) jobs ≡ 0)
unfolding filter total
none_expired e [] h = (refl, refl)
none_expired e (j ∷ jobs) h =
    let (f, t) = none_expired e jobs h.1 in
    (rw (h.0, if◌then◌else◌, f) refl, rw h.0 (omega (arith, t)))

short_leaves-All :
    (c : Cutoffs) (limit : ℕ) (jobs : List Job)
    → Keyed job_key jobs
    → length (filter (chosen c limit jobs) jobs) < limit
    → All (λ j. expired c j ≡ false) (kept c limit jobs)
short_leaves-All c limit jobs u h =
    All-map_of (λ j. Memᴰ j (kept c limit jobs)) (λ j. expired c j ≡ false)
      (λ j m. short_leaves_none c limit jobs j u h m) (kept c limit jobs)
      (All-members (kept c limit jobs))

-- What the loop leaves.
abbrev pub Cleaned : Cutoffs → Store → Store → Type 0
Cleaned c s s' =
    (s'.jobs ≡ filter (λ j. not (expired c j)) s.jobs)
    × (s'.runs ≡ s.runs)
    × (s'.result_runs ≡ s.result_runs)
    × (s'.workers ≡ s.workers)

delete_jobs-Cleaned :
    (c : Cutoffs) (limit : ℕ) (s : Store) (sum fuel : ℕ)
    → 1 ≤ limit
    → Keyed job_key s.jobs
    → length s.jobs < fuel
    → (s' : Store) × (delete_jobs c limit s sum fuel
        ≡ some (s', sum + total (λ j. one (expired c j)) s.jobs))
      × Cleaned c s s'
unfolding delete_jobs delete_expired_terminal
delete_jobs-Cleaned c limit s sum zero l u f = absurd (omega (arith, f))
delete_jobs-Cleaned c limit s sum (suc fuel) l u f =
    let ids : Job → Bool = λ j. selected (batch c limit s.jobs) j.id in
    let s₁ : Store = (delete_expired_terminal s c limit).0 in
    let n : ℕ = length (filter (chosen c limit s.jobs) s.jobs) in
    let sums = total_chosen ids (expired c) s.jobs in
    let same = filter_chosen ids (expired c) s.jobs in
    let lengths = length_chosen ids (expired c) s.jobs in
    elim (Bool-cases (ltb n limit)) [
      | inl h ↦
          let short : n < limit = ground arith in
          let (all, zeros) =
            none_expired (expired c) (kept c limit s.jobs)
              (short_leaves-All c limit s.jobs u short) in
          let count : n ≡ total (λ j. one (expired c j)) s.jobs = omega (arith, sums, zeros) in
          (s₁, rw (h, if◌then◌else◌, count) refl, (sym all ∙ same, refl, refl, refl))
      | inr h ↦
          let full : limit ≤ n = ground arith in
          let (s', done, (jobs, runs, results, workers)) =
            delete_jobs-Cleaned c limit s₁ (sum + n) fuel l
              (filter-Keyed job_key (λ j. not (chosen c limit s.jobs j)) s.jobs u)
              (omega (arith, lengths, full, l, f)) in
          let count : sum + n + total (λ j. one (expired c j)) s₁.jobs
              ≡ sum + total (λ j. one (expired c j)) s.jobs =
            omega (arith, sums) in
          (
            s',
            rw (h, if◌then◌else◌) (done ∙ ap (λ k. some (s', k)) count),
            (jobs ∙ same, runs, results, workers),
          )
    ]

-- With a positive batch size and jobs of different identifiers, the cleanup's loop over the jobs ends
-- after at most one round more than there are jobs; it counts the expired jobs, which are those that
-- `count_expired_terminal` counts, and leaves the other jobs in their order, and every run, every
-- result and every worker.
pub delete_jobs_ends :
    (c : Cutoffs) (batch_size : ℕ) (s : Store)
    → 1 ≤ batch_size
    → Keyed job_key s.jobs
    → (s' : Store) × (delete_jobs c batch_size s 0 (suc (length s.jobs))
        ≡ some (s', count_expired_terminal s c))
      × Cleaned c s s'
unfolding count_expired_terminal
delete_jobs_ends c batch_size s l u =
    let (s', done, cleaned) =
      delete_jobs-Cleaned c batch_size s 0 (suc (length s.jobs)) l u (omega arith) in
    let count : 0 + total (λ j. one (expired c j)) s.jobs ≡ length (filter (expired c) s.jobs) =
      omega (arith, length-filter (expired c) s.jobs) in
    (s', done ∙ ap (λ k. some (s', k)) count, cleaned)
