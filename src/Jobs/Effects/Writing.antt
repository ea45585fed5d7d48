-- ===== src/Jobs/Effects/Writing.antt =====
-- What a call that returns says of its parts, and the writes of one job and its events.
use reconcileflow_ai.Prelude.{
  ℕ, ◌+◌, ◌≡◌, refl, sym, Bool, true, false, List, [], ◌∷◌, ◌++◌, if◌then◌else◌,
}
use reconcileflow_ai.Jobs.Records.{Job, EventType, EventDetails, JobEvent}
use reconcileflow_ai.Jobs.Store.{
  Store, Result, ok, raise, PersistenceError, ◌>>=◌, ◌>>◌, require, put_job, save, append_event,
  last_sequence,
}

-- What a returned chain says of its first part, and of the rest.
pub bind_ok {ℓ κ μ} :
    {A : Type ℓ} {B : Type κ} {C : Type μ} (m : Result A) (f : A → Result B) (b : B)
    → (m >>= f) ≡ ok b
    → ((a : A) → m ≡ ok a → f a ≡ ok b → C)
    → C
bind_ok (ok a) f b h k = k a refl h
bind_ok (raise e) f b h k = absurd (cc)

pub require_then {κ μ} :
    {B : Type κ} {C : Type μ} (t : Bool) (e : PersistenceError) (m : Result B) (b : B)
    → (require t e >> m) ≡ ok b
    → (t ≡ true → m ≡ ok b → C)
    → C
require_then true e m b h k = k refl h
require_then false e m b h k = absurd (cc)

-- What a table of events becomes when events with the next sequence numbers are appended.
pub data Grown (events : List JobEvent) : List JobEvent → Type 0 where
  unchanged : Grown events events
  more :
      (earlier later : List JobEvent) (e : JobEvent)
      → Grown events earlier
      → e.sequence_number ≡ last_sequence e.job_id earlier + 1
      → later ≡ earlier ++ e ∷ []
      → Grown events later

pub append_event-Grown :
    (s : Store) (job : Job) (t : EventType) (at : ℕ) (d : EventDetails) (events : List JobEvent)
    → Grown events s.events
    → Grown events (append_event s job t at d).events
unfolding append_event
append_event-Grown s job t at d events g = Grown.more s.events _ _ g refl refl

-- The job is written and events are appended.
abbrev pub Writes : Store → Job → Store → Type 0
Writes s job' s' = (s'.jobs ≡ put_job job' s.jobs) × Grown s.events s'.events

pub appended :
    (s s' : Store) (job'' job' : Job) (t : EventType) (at : ℕ) (d : EventDetails)
    → ◌≡◌ {A = Result (Store × Job)}
        (ok (append_event (save s job'') job'' t at d, job''))
        (ok (s', job'))
    → (job'' ≡ job') × Writes s job' s'
appended s s' job'' job' t at d h =
    let es : append_event (save s job'') job'' t at d ≡ s' = cc in
    let ej : job'' ≡ job' = cc in
    (
      ej,
      (
        rw (sym es, sym ej) (unfold append_event in refl),
        rw (sym es) (append_event-Grown (save s job'') job'' t at d s.events Grown.unchanged),
      ),
    )

pub ok_parts {ℓ κ} :
    {A : Type ℓ} {B : Type κ} (a a' : A) (b b' : B)
    → ◌≡◌ {A = Result (A × B)} (ok (a, b)) (ok (a', b'))
    → (a ≡ a') × (b ≡ b')
ok_parts a a' b b' h = (cc, cc)

pub Writes-append_event :
    (s s' : Store) (job' job : Job) (t : EventType) (at : ℕ) (d : EventDetails)
    → Writes s job' s'
    → Writes s job' (append_event s' job t at d)
unfolding append_event
Writes-append_event s s' job' job t at d (jobs, g) =
    (jobs, append_event-Grown s' job t at d s.events g)

pub Writes-save :
    (s : Store) (job' job : Job) (t : EventType) (at : ℕ) (d : EventDetails)
    → Writes s job' (save (append_event s job t at d) job')
unfolding append_event
Writes-save s job' job t at d = (refl, append_event-Grown s job t at d s.events Grown.unchanged)

pub Writes-if :
    (s s₁ s₂ : Store) (job' : Job) (b : Bool)
    → Writes s job' s₁
    → Writes s job' s₂
    → Writes s job' (if b then s₁ else s₂)
Writes-if s s₁ s₂ job' true w₁ w₂ = w₁
Writes-if s s₁ s₂ job' false w₁ w₂ = w₂
