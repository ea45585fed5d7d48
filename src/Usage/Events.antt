-- ===== src/Usage/Events.antt =====
-- AIInferenceEventRepository of backend/src/reconcileflow/persistence/repositories.py: the events that
-- record how an inference ended.
use reconcileflow_ai.Prelude.{
  ℕ, ◌≡◌, refl, subst, Bool, true, false, not, ◌&&◌, Option, none, some, List, [], ◌∷◌, ◌++◌, any,
  find?, ◌==◌, Text,
}
use reconcileflow_ai.Prelude.Keyed.{put, find?-put}
use reconcileflow_ai.Jobs.Table.{find?-Memᴰ}
use reconcileflow_ai.Jobs.Records.{Run}
use reconcileflow_ai.Accounts.Records.{record_not_found, persistence_conflict}
use reconcileflow_ai.Accounts.Store.{Answer, answered, refused, ◌>>=◌, ◌>>◌, refuse_if, or_refuse}
use reconcileflow_ai.Accounts.Answers.{bind_answered, unless, or_refuse-some}

-- `AI_INFERENCE_OUTCOMES`
pub data InferenceOutcome : Type 0 where
  requested succeeded failed timed_out disabled quota_rejected : InferenceOutcome

-- `AIInferenceEventRecord`
pub record InferenceEvent : Type 0 where
  pub id : ℕ
  pub organization_id : ℕ
  pub run_id : ℕ
  pub outcome : InferenceOutcome
  pub provider : Text
  pub model_version : Text
  pub prompt_version : Text
  pub inference_config_version : Text
  pub candidate_count : ℕ
  pub suggestion_count : ℕ
  pub input_tokens : ℕ
  pub output_tokens : ℕ
  pub duration_ms : Option ℕ
  pub error_code : Option Text
  pub completed_at : Option ℕ
  pub created_at : ℕ

pub record EventStore : Type 0 where
  pub runs : List Run
  pub events : List InferenceEvent

unfoldable pub is_requested : InferenceOutcome → Bool
is_requested InferenceOutcome.requested = true
is_requested InferenceOutcome.succeeded = false
is_requested InferenceOutcome.failed = false
is_requested InferenceOutcome.timed_out = false
is_requested InferenceOutcome.disabled = false
is_requested InferenceOutcome.quota_rejected = false

abbrev pub event_key : InferenceEvent → ℕ
event_key x = x.id

-- The row of `create`: the database draws its identifier and stamps its time.
abbrev pub new_event : ℕ → ℕ → Text → Text → Text → Text → ℕ → ℕ → ℕ → InferenceEvent
new_event organization_id run_id provider model_version prompt_version inference_config_version
      candidate_count id created_at =
    record {
      id = id;
      organization_id = organization_id;
      run_id = run_id;
      outcome = InferenceOutcome.requested;
      provider = provider;
      model_version = model_version;
      prompt_version = prompt_version;
      inference_config_version = inference_config_version;
      candidate_count = candidate_count;
      suggestion_count = 0;
      input_tokens = 0;
      output_tokens = 0;
      duration_ms = none;
      error_code = none;
      completed_at = none;
      created_at = created_at;
    }

-- `AIInferenceEventRepository.create`, of the row that it makes.
unfoldable pub create_event : EventStore → InferenceEvent → Answer (EventStore × InferenceEvent)
create_event s x = do
  refuse_if
      (not (any (λ (r : Run). r.id == x.run_id && r.organization_id == x.organization_id) s.runs))
      record_not_found
  refuse_if (any (λ y. y.id == x.id) s.events) persistence_conflict
  answered (record s { events = s.events ++ x ∷ [] }, x)

-- What a caller of `complete` reports.
pub record Completed : Type 0 where
  pub outcome : InferenceOutcome
  pub suggestion_count : ℕ
  pub input_tokens : ℕ
  pub output_tokens : ℕ
  pub duration_ms : ℕ
  pub error_code : Option Text
  pub completed_at : ℕ

abbrev pub completed_event : InferenceEvent → Completed → InferenceEvent
completed_event x c = record x {
  outcome = c.outcome;
  suggestion_count = c.suggestion_count;
  input_tokens = c.input_tokens;
  output_tokens = c.output_tokens;
  duration_ms = some c.duration_ms;
  error_code = c.error_code;
  completed_at = some c.completed_at;
}

unfoldable pub find_event : EventStore → ℕ → ℕ → Answer InferenceEvent
find_event s event_id organization_id =
    or_refuse (find? (λ x. x.id == event_id && x.organization_id == organization_id) s.events)
      record_not_found

-- `AIInferenceEventRepository.complete`
unfoldable pub complete_event : EventStore → ℕ → ℕ → Completed → Answer EventStore
unfolding is_requested
complete_event s event_id organization_id c = do
  x ← find_event s event_id organization_id
  refuse_if (not (is_requested x.outcome)) persistence_conflict
  answered record s { events = put event_key (completed_event x c) s.events }

completed_found :
    (s : EventStore) (id organization_id : ℕ) (x : InferenceEvent) (c : Completed)
    → find_event s id organization_id ≡ answered x
    → find_event
        (record s { events = put event_key (completed_event x c) s.events })
        id
        organization_id
      ≡ answered (completed_event x c)
unfolding find_event
completed_found s id organization_id x c g =
    let test : InferenceEvent → Bool = λ y. y.id == id && y.organization_id == organization_id in
    let found = or_refuse-some (find? test s.events) record_not_found x g in
    let passes = (find?-Memᴰ test x s.events found).1 in
    rw (find?-put event_key test (completed_event x c) x s.events passes refl found) refl

-- An event completes once: when a completion with an outcome other than `requested` answers, any
-- further completion of the event is refused as a conflict.
pub event_completes_once :
    (s s' : EventStore) (id organization_id : ℕ) (c c' : Completed)
    → is_requested c.outcome ≡ false
    → complete_event s id organization_id c ≡ answered s'
    → complete_event s' id organization_id c' ≡ refused persistence_conflict
unfolding complete_event
event_completes_once s s' id organization_id c c' ended h =
    bind_answered (find_event s id organization_id) _ _ h λ x g h1.
      unless (not (is_requested x.outcome)) _ _ _ h1 λ _ h2.
        let found = completed_found s id organization_id x c g in
        let after : record s { events = put event_key (completed_event x c) s.events } ≡ s' = cc in
        subst
          (λ (v : EventStore).
            complete_event v id organization_id c' ≡ refused persistence_conflict)
          after (rw (found, ended) refl)
