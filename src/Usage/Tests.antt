-- ===== src/Usage/Tests.antt =====
-- An organization with a limit of 1000 tokens a day reserves for three candidates.

use reconcileflow_ai.Prelude.{
  ◌≤◌, ◌≡◌, refl, true, false, none, some, [], ◌∷◌, any, find?, codes, arith, text_eq,
}
use reconcileflow_ai.Prelude.Keyed.{total, put}
use reconcileflow_ai.Runs.Repository.{new_run}
use reconcileflow_ai.Accounts.Store.{answered}
use reconcileflow_ai.Usage.Records.{
  UsageRecord, UsagePolicy, UsageStore, get_usage, finalized_usage, finalize_usage, release_expired,
  requests_of, tokens_of, reserve_usage, release_usage,
}
use reconcileflow_ai.Usage.Controller.{UsageController, reservation, find_policy, reserve}
use reconcileflow_ai.Usage.Limits.{Reserved, reserve_stays-WithinLimits, finalize_adds_nothing}
use reconcileflow_ai.Usage.Events.{
  InferenceOutcome, InferenceEvent, EventStore, Completed, is_requested, new_event, create_event,
  completed_event, find_event, complete_event, event_completes_once,
}
use reconcileflow_ai.Usage.Closing.{finalized_is_closed}
use reconcileflow_ai.Accounts.Records.{persistence_conflict}
use reconcileflow_ai.Accounts.Store.{refused}

abbrev controller : UsageController
controller = record {
  provider_name = codes "openai-compatible";
  model_version = codes "m";
  estimated_tokens_per_candidate = 256;
  reservation_ttl_seconds = 300;
  month_start = λ now. 0;
}

abbrev policy : UsagePolicy
policy = record {
  organization_id = 1;
  hosted_ai_enabled = true;
  ai_daily_request_limit = 5;
  ai_monthly_request_limit = 50;
  ai_daily_token_limit = 1_000;
  ai_monthly_token_limit = 10_000;
}

abbrev store : UsageStore
store = record { policies = policy ∷ []; runs = new_run 5 1 ∷ []; usage = [] }

abbrev row : UsageRecord
row = reservation controller 1 5 3 90_000_000_000 7 90_000_000_000

abbrev reserving : UsageStore
reserving = record store { usage = row ∷ [] }

reserves :
    reserve controller store 1 5 3 90_000_000_000 7 90_000_000_000 ≡ (reserving, answered (some 7))
unfolding reserve text_eq find_policy find? total release_expired reserve_usage any
reserves = refl

reserves_answer :
    (reserve controller store 1 5 3 90_000_000_000 7 90_000_000_000).1 ≡ answered (some 7)
unfolding reserve text_eq find_policy find? total release_expired reserve_usage any
reserves_answer = refl

reserve_stays-WithinLimits_example :
    Reserved controller store
      (reserve controller store 1 5 3 90_000_000_000 7 90_000_000_000).0
      1
      90_000_000_000
reserve_stays-WithinLimits_example =
    reserve_stays-WithinLimits controller store 1 5 3 90_000_000_000 7 90_000_000_000 7
      reserves_answer

abbrev final : UsageStore
final = record store { usage = finalized_usage row 500 200 90_100_000_000 ∷ [] }

finalizes : finalize_usage reserving 7 1 500 200 90_100_000_000 ≡ answered final
unfolding finalize_usage get_usage find? put
finalizes = refl

found : get_usage reserving 7 1 ≡ answered row
unfolding get_usage find?
found = refl

finalize_adds_nothing_example :
    (total (requests_of 1 0 90_100_000_000) final.usage
      ≡ total (requests_of 1 0 90_100_000_000) reserving.usage)
    × (total (tokens_of 1 0 90_100_000_000) final.usage
        ≤ total (tokens_of 1 0 90_100_000_000) reserving.usage)
finalize_adds_nothing_example =
    finalize_adds_nothing reserving final 7 1 500 200 90_100_000_000 0 90_100_000_000 row (tt, tt)
      found (omega arith) (omega arith) finalizes

finalized_is_closed_example :
    (finalize_usage final 7 1 1 1 90_200_000_000 ≡ refused persistence_conflict)
    × (release_usage final 7 1 90_200_000_000 ≡ answered final)
finalized_is_closed_example =
    finalized_is_closed reserving final 7 1 500 200 90_100_000_000 1 1 90_200_000_000 finalizes

abbrev event : InferenceEvent
event = new_event 1 5 (codes "p") (codes "m") (codes "v1") (codes "c") 3 9 80_000_000_000

abbrev ending : Completed
ending = record {
  outcome = InferenceOutcome.succeeded;
  suggestion_count = 2;
  input_tokens = 500;
  output_tokens = 200;
  duration_ms = 40;
  error_code = none;
  completed_at = 90_000_000_000;
}

abbrev started : EventStore
started = record { runs = new_run 5 1 ∷ []; events = event ∷ [] }

abbrev ended : EventStore
ended = record started { events = completed_event event ending ∷ [] }

starts : create_event (record started { events = [] }) event ≡ answered (started, event)
unfolding create_event any
starts = refl

completes : complete_event started 9 1 ending ≡ answered ended
unfolding complete_event find_event find? put is_requested
completes = refl

not_requested : is_requested ending.outcome ≡ false
unfolding is_requested
not_requested = refl

event_completes_once_example : complete_event ended 9 1 ending ≡ refused persistence_conflict
event_completes_once_example =
    event_completes_once started ended 9 1 ending ending not_requested completes
