-- ===== src/Usage/Records.antt =====
-- The rows of the metering, and AIUsageRepository of
-- backend/src/reconcileflow/persistence/repositories.py over them.
use reconcileflow_ai.Prelude.{
  ℕ, ◌+◌, Bool, true, false, not, ◌&&◌, ◌||◌, Option, some, List, [], ◌∷◌, ◌++◌, any, find?,
  if◌then◌else◌, ◌==◌, leb, ltb, Text,
}
use reconcileflow_ai.Prelude.Keyed.{total, put}
use reconcileflow_ai.Jobs.Records.{Run}
use reconcileflow_ai.Accounts.Records.{record_not_found, persistence_conflict}
use reconcileflow_ai.Accounts.Store.{Answer, answered, ◌>>=◌, ◌>>◌, refuse_if, or_refuse}

-- `AI_USAGE_STATUSES`
pub data UsageStatus : Type 0 where
  reserved finalized released : UsageStatus

-- `AIUsageRecord`
pub record UsageRecord : Type 0 where
  pub id : ℕ
  pub organization_id : ℕ
  pub run_id : ℕ
  pub provider : Text
  pub model_version : Text
  pub status : UsageStatus
  pub reserved_requests : ℕ
  pub reserved_tokens : ℕ
  pub candidate_count : ℕ
  pub input_tokens : ℕ
  pub output_tokens : ℕ
  pub created_at : ℕ
  pub expires_at : ℕ
  pub finalized_at : Option ℕ
  pub released_at : Option ℕ

-- The policy columns of an organization.
pub record UsagePolicy : Type 0 where
  pub organization_id : ℕ
  pub hosted_ai_enabled : Bool
  pub ai_daily_request_limit : ℕ
  pub ai_monthly_request_limit : ℕ
  pub ai_daily_token_limit : ℕ
  pub ai_monthly_token_limit : ℕ

pub record UsageStore : Type 0 where
  pub policies : List UsagePolicy
  pub runs : List Run
  pub usage : List UsageRecord

unfoldable pub is_reserved : UsageStatus → Bool
is_reserved UsageStatus.reserved = true
is_reserved UsageStatus.finalized = false
is_reserved UsageStatus.released = false

unfoldable pub is_finalized : UsageStatus → Bool
is_finalized UsageStatus.reserved = false
is_finalized UsageStatus.finalized = true
is_finalized UsageStatus.released = false

abbrev pub usage_key : UsageRecord → ℕ
usage_key r = r.id

-- `AIUsageRepository.reserve`
unfoldable pub reserve_usage : UsageStore → UsageRecord → Answer (UsageStore × ℕ)
reserve_usage s r = do
  refuse_if
      (not (any (λ (x : Run). x.id == r.run_id && x.organization_id == r.organization_id) s.runs))
      record_not_found
  refuse_if (any (λ x. x.id == r.id) s.usage) persistence_conflict
  answered (record s { usage = s.usage ++ r ∷ [] }, r.id)

-- `AIUsageRepository.get`
unfoldable pub get_usage : UsageStore → ℕ → ℕ → Answer UsageRecord
get_usage s reservation_id organization_id =
    or_refuse (find? (λ r. r.id == reservation_id && r.organization_id == organization_id) s.usage)
      record_not_found

-- The record that `finalize` writes.
abbrev pub finalized_usage : UsageRecord → ℕ → ℕ → ℕ → UsageRecord
finalized_usage r input_tokens output_tokens finalized_at = record r {
  status = UsageStatus.finalized;
  input_tokens = input_tokens;
  output_tokens = output_tokens;
  finalized_at = some finalized_at;
}

-- `AIUsageRepository.finalize`
unfoldable pub finalize_usage : UsageStore → ℕ → ℕ → ℕ → ℕ → ℕ → Answer UsageStore
unfolding is_reserved
finalize_usage s reservation_id organization_id input_tokens output_tokens finalized_at = do
  r ← get_usage s reservation_id organization_id
  refuse_if (not (is_reserved r.status)) persistence_conflict
  answered record s {
    usage = put usage_key (finalized_usage r input_tokens output_tokens finalized_at) s.usage;
  }

abbrev pub released_usage : UsageRecord → ℕ → UsageRecord
released_usage r at = record r { status = UsageStatus.released; released_at = some at }

-- `AIUsageRepository.release`
unfoldable pub release_usage : UsageStore → ℕ → ℕ → ℕ → Answer UsageStore
unfolding is_reserved
release_usage s reservation_id organization_id released_at = do
  r ← get_usage s reservation_id organization_id
  answered (
      if is_reserved r.status
      then record s { usage = put usage_key (released_usage r released_at) s.usage }
      else s)

-- `AIUsageRepository.release_expired`
unfoldable pub release_expired : ℕ → ℕ → List UsageRecord → List UsageRecord
unfolding is_reserved
release_expired organization_id now [] = []
release_expired organization_id now (r ∷ usage) =
    (if r.organization_id == organization_id && is_reserved r.status && leb r.expires_at now
      then released_usage r now
      else r)
    ∷ release_expired organization_id now usage

-- Whether `summarize` counts a row: `active`, of the organization and recent.
unfoldable pub counts : ℕ → ℕ → ℕ → UsageRecord → Bool
unfolding is_reserved is_finalized
counts organization_id since now r =
    r.organization_id == organization_id
    && leb since r.created_at
    && (is_finalized r.status || (is_reserved r.status && ltb now r.expires_at))

unfoldable pub requests_of : ℕ → ℕ → ℕ → UsageRecord → ℕ
unfolding counts
requests_of organization_id since now r =
    if counts organization_id since now r then r.reserved_requests else 0

unfoldable pub tokens_of : ℕ → ℕ → ℕ → UsageRecord → ℕ
unfolding counts is_finalized
tokens_of organization_id since now r =
    if counts organization_id since now r
    then (if is_finalized r.status then r.input_tokens + r.output_tokens else r.reserved_tokens)
    else 0

-- `AIUsageRepository.summarize`: the requests and the tokens.
unfoldable pub summarize : List UsageRecord → ℕ → ℕ → ℕ → ℕ × ℕ
unfolding requests_of tokens_of
summarize usage organization_id since now = (
  total (requests_of organization_id since now) usage,
  total (tokens_of organization_id since now) usage,
)
