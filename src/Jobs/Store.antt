-- ===== src/Jobs/Store.antt =====
-- The tables that the job queue reads and writes, and the repositories' access to them. A unit of
-- work commits or rolls back, so an operation that raises leaves no store behind.
use reconcileflow_ai.Prelude.{
  ℕ, ◌+◌, Bool, true, false, ◌&&◌, Option, none, some, List, [], ◌∷◌, ◌++◌, if◌then◌else◌, ◌==◌,
  ltb, find?,
}
use reconcileflow_ai.Jobs.Records.{Job, JobEvent, EventType, EventDetails, Run, Worker}

-- The tables; of the persisted results only the run of each is kept here.
pub record Store : Type 0 where
  pub jobs : List Job
  pub events : List JobEvent
  pub runs : List Run
  pub result_runs : List ℕ
  pub workers : List Worker

pub data PersistenceError : Type 0 where
  value_error record_not_found persistence_conflict invalid_status_transition : PersistenceError

pub data Result {ℓ} (A : Type ℓ) : Type ℓ where
  ok : A → Result A
  raise : PersistenceError → Result A

infixl 5 ◌>>=◌ ◌>>◌
abbrev pub ◌>>=◌ {ℓ κ} : {A : Type ℓ} {B : Type κ} → Result A → (A → Result B) → Result B
ok a >>= f = f a
raise e >>= f = raise e

abbrev pub ◌>>◌ {ℓ} : {B : Type ℓ} → Result (Unit {0}) → Result B → Result B
m >> k = m >>= λ _. k

-- `if not test: raise error`
abbrev pub require : Bool → PersistenceError → Result (Unit {0})
require true e = ok tt
require false e = raise e

abbrev pub or_raise {ℓ} : {A : Type ℓ} → Option A → PersistenceError → Result A
or_raise none e = raise e
or_raise (some a) e = ok a

-- `BackgroundJobRepository.get`
unfoldable pub get : Store → ℕ → ℕ → Result Job
get s job_id organization_id =
    or_raise (find? (λ j. j.id == job_id && j.organization_id == organization_id) s.jobs)
      record_not_found

-- The session's write of a changed record, by its primary key.
unfoldable pub put_job : Job → List Job → List Job
put_job job [] = []
put_job job (j ∷ jobs) = (if j.id == job.id then job else j) ∷ put_job job jobs

abbrev pub save : Store → Job → Store
save s job = record s { jobs = put_job job s.jobs }

unfoldable pub put_run : Run → List Run → List Run
put_run run [] = []
put_run run (r ∷ runs) = (if r.id == run.id then run else r) ∷ put_run run runs

-- `max(sequence_number)` of a job, or 0.
unfoldable pub last_sequence : ℕ → List JobEvent → ℕ
last_sequence job_id [] = 0
last_sequence job_id (e ∷ events) =
    let rest = last_sequence job_id events in
    if e.job_id == job_id && ltb rest e.sequence_number then e.sequence_number else rest

-- `_append_event`
unfoldable pub append_event : Store → Job → EventType → ℕ → EventDetails → Store
append_event s job event_type occurred_at details = record s {
  events =
      s.events
      ++ record {
        organization_id = job.organization_id;
        job_id = job.id;
        sequence_number = last_sequence job.id s.events + 1;
        event_type = event_type;
        occurred_at = occurred_at;
        details = details;
      }
        ∷ [];
}
