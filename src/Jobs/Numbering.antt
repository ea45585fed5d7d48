-- ===== src/Jobs/Numbering.antt =====
-- The sequence numbers of the events of a job.
use reconcileflow_ai.Prelude.{
  ℕ, suc, ◌+◌, ◌≡◌, refl, sym, inl, inr, ◌&&◌, List, [], ◌∷◌, ◌++◌, arith, leb, ◌==◌, ltb, ap,
  if◌then◌else◌, Bool-cases, Bool, filter, not, ◌⊎◌,
}
use reconcileflow_ai.Jobs.Records.{JobEvent}
use reconcileflow_ai.Jobs.Store.{Store, last_sequence}
use reconcileflow_ai.Jobs.Expiry.{batch, selected, delete_expired_terminal}
use reconcileflow_ai.Jobs.Steps.{Step, Reachable}
use reconcileflow_ai.Jobs.Effects.{
  Grown, create_effect, complete_effect, heartbeat_effect, update_progress_effect,
  request_cancellation_effect, retry_failed_effect, claim_next_effect,
}
use reconcileflow_ai.Jobs.Recovery.{recover_stale_events}

-- How many events of a job have a number.
unfoldable pub count_events : ℕ → ℕ → List JobEvent → ℕ
count_events job_id n [] = 0
count_events job_id n (e ∷ events) =
    let rest = count_events job_id n events in
    if e.job_id == job_id && e.sequence_number == n then suc rest else rest

-- The events of each job have the numbers from one to the last, each once.
abbrev pub Numbered : List JobEvent → Type 0
Numbered events =
    (job_id n : ℕ)
    → count_events job_id n events
      ≡ (if leb 1 n && leb n (last_sequence job_id events) then 1 else 0)

count-append :
    (job_id n : ℕ) (events : List JobEvent) (e : JobEvent)
    → count_events job_id n (events ++ e ∷ [])
      ≡ count_events job_id n events
        + (if e.job_id == job_id && e.sequence_number == n then 1 else 0)
unfolding count_events
count-append job_id n [] e = ground arith
count-append job_id n (x ∷ events) e = ground (arith, count-append job_id n events e)

last-append :
    (job_id : ℕ) (events : List JobEvent) (e : JobEvent)
    → last_sequence job_id (events ++ e ∷ []) ≡ (
        if e.job_id == job_id && ltb (last_sequence job_id events) e.sequence_number
        then e.sequence_number
        else last_sequence job_id events)
unfolding last_sequence
last-append job_id [] e = refl
last-append job_id (x ∷ events) e = ground (arith, last-append job_id events e)

Numbered-append :
    (events : List JobEvent) (e : JobEvent)
    → e.sequence_number ≡ last_sequence e.job_id events + 1
    → Numbered events
    → Numbered (events ++ e ∷ [])
Numbered-append events e next h job_id n =
    rw (count-append job_id n events e, last-append job_id events e, h job_id n)
      (elim (Bool-cases (e.job_id == job_id)) [
        | inl own ↦
            let same : e.job_id ≡ job_id = ground arith in
            let next' : e.sequence_number ≡ last_sequence job_id events + 1 = rw same at next in
            ground arith
        | inr other ↦ ground arith
      ])

Grown-Numbered :
    (events later : List JobEvent) → Grown events later → Numbered events → Numbered later
Grown-Numbered events _ Grown.unchanged h = h
Grown-Numbered events _ (Grown.more earlier later e g next is) h =
    rw is (Numbered-append earlier e next (Grown-Numbered events earlier g h))

-- A deletion takes every event of a job, or none.
module _ (gone : ℕ → Bool) where
  without : List JobEvent → List JobEvent
  without events = filter (λ e. not (gone e.job_id)) events

  count-without :
      (job_id n : ℕ) (events : List JobEvent)
      → count_events job_id n (without events)
        ≡ (if gone job_id then 0 else count_events job_id n events)
  unfolding count_events without filter
  count-without job_id n [] = ground arith
  count-without job_id n (e ∷ events) = elim (Bool-cases (e.job_id == job_id)) [
    | inl own ↦
        let same : e.job_id ≡ job_id = ground arith in
        rw same (ground (arith, count-without job_id n events))
    | inr other ↦ ground (arith, count-without job_id n events)
  ]

  last-without :
      (job_id : ℕ) (events : List JobEvent)
      → last_sequence job_id (without events)
        ≡ (if gone job_id then 0 else last_sequence job_id events)
  unfolding last_sequence without filter
  last-without job_id [] = ground arith
  last-without job_id (e ∷ events) = elim (Bool-cases (e.job_id == job_id)) [
    | inl own ↦
        let same : e.job_id ≡ job_id = ground arith in
        rw same (ground (arith, last-without job_id events))
    | inr other ↦ ground (arith, last-without job_id events)
  ]

  without-Numbered : (events : List JobEvent) → Numbered events → Numbered (without events)
  without-Numbered events h job_id n =
      rw (count-without job_id n events, last-without job_id events, h job_id n) (ground arith)

-- Every call appends events with the next numbers, or none, or deletes the events of some jobs.
Step-Grown :
    (s s' : Store)
    → Step s s'
    → Grown s.events s'.events ⊎ ((gone : ℕ → Bool) × (s'.events ≡ without gone s.events))
Step-Grown s s' (Step.created id now o r sch m t p job new h) =
    let (positive, long, e, jobs, g) = create_effect s id now o r sch m t p s' job h in inl g
Step-Grown s s' (Step.claimed w at o aging found h) =
    elim (claim_next_effect s w at o aging s' found h) [
      | inl (empty, nothing, same_store) ↦ inl (rw same_store Grown.unchanged)
      | inr (job, chosen, eq, written) ↦ inl written.1
    ]
Step-Grown s s' (Step.beaten i o w at job' h) =
    let (job, got, leased, e, jobs, events) = heartbeat_effect s i o w at s' job' h in
    inl (rw events Grown.unchanged)
Step-Grown s s' (Step.advanced i o p m at job' h) =
    let (job, got, low, leased, e, w) = update_progress_effect s i o p m at s' job' h in inl w.1
Step-Grown s s' (Step.asked_to_cancel i o at job' h) =
    let (job, got, may, e, w) = request_cancellation_effect s i o at s' job' h in inl w.1
Step-Grown s s' (Step.recovered stale_before at n h) =
    let e = ap (λ r. r.0) h in inl (rw (sym e) (recover_stale_events s stale_before at))
Step-Grown s s' (Step.retried i o limit at job' h) =
    let (job, got, failed, below, e, w) = retry_failed_effect s i o limit at s' job' h in inl w.1
Step-Grown s s' (Step.completed i o ending at job' h) =
    let (job, t, got, may, ended, w) = complete_effect s i o ending at s' job' h in inl w.1
Step-Grown s s' (Step.deleted c limit n positive h) =
    let e : (delete_expired_terminal s c limit).0 ≡ s' = ap (λ r. r.0) h in
    inr
      (selected (batch c limit s.jobs), rw (sym e) (unfold delete_expired_terminal without in refl))

-- In every store that calls reach from empty tables, the events of each job have the sequence
-- numbers from one to the last one, each exactly once.
pub Reachable-Numbered :
    (s : Store)
    → Reachable s
    → (job_id n : ℕ)
    → count_events job_id n s.events
      ≡ (if leb 1 n && leb n (last_sequence job_id s.events) then 1 else 0)
unfolding count_events last_sequence
Reachable-Numbered _ (Reachable.begun s no_jobs no_events) job_id n = rw no_events (ground arith)
Reachable-Numbered _ (Reachable.stepped s s' r step) job_id n = elim (Step-Grown s s' step) [
  | inl grown ↦ Grown-Numbered s.events s'.events grown (Reachable-Numbered s r) job_id n
  | inr (gone, e) ↦ rw e (without-Numbered gone s.events (Reachable-Numbered s r) job_id n)
]
