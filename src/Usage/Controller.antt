-- ===== src/Usage/Controller.antt =====
-- backend/src/reconcileflow/ai/usage.py, AIUsageController. The start of the month of an instant is
-- Python's calendar and a parameter; the time that the database stamps on a row is an argument.
use reconcileflow_ai.Prelude.{
  ℕ, ◌+◌, ◌*◌, ◌/◌, Bool, not, ◌||◌, Option, none, some, List, find?, if◌then◌else◌, ◌==◌, ltb,
  Text, text_eq, codes,
}
use reconcileflow_ai.Accounts.Records.{record_not_found, ai_usage_limit, invalid_value}
use reconcileflow_ai.Accounts.Store.{Answer, answered, refused, ◌>>=◌, ◌>>◌, refuse_if, or_refuse}
use reconcileflow_ai.Usage.Records.{
  UsageStatus, UsageRecord, UsagePolicy, UsageStore, reserve_usage, release_expired, summarize,
}

-- The configuration of an `AIUsageController`.
pub record UsageController : Type 0 where
  pub provider_name : Text
  pub model_version : Text
  pub estimated_tokens_per_candidate : ℕ
  pub reservation_ttl_seconds : ℕ
  pub month_start : ℕ → ℕ

unfoldable pub is_metered : UsageController → Bool
is_metered c = text_eq c.provider_name (codes "openai-compatible")

-- `AIUsageSummary`
pub record UsageSummary : Type 0 where
  pub daily_requests : ℕ
  pub daily_tokens : ℕ
  pub monthly_requests : ℕ
  pub monthly_tokens : ℕ

-- Midnight of the day of an instant.
abbrev pub day_start : ℕ → ℕ
day_start now = now / 86_400_000_000 * 86_400_000_000

-- `_summarize`
unfoldable pub usage_summary : UsageController → List UsageRecord → ℕ → ℕ → UsageSummary
unfolding summarize
usage_summary c usage organization_id now =
    let (daily_requests, daily_tokens) = summarize usage organization_id (day_start now) now in
    let (monthly_requests, monthly_tokens) =
      summarize usage organization_id (c.month_start now) now in
    record {
      daily_requests = daily_requests;
      daily_tokens = daily_tokens;
      monthly_requests = monthly_requests;
      monthly_tokens = monthly_tokens;
    }

unfoldable pub over_limits : UsagePolicy → UsageSummary → ℕ → Bool
over_limits policy usage estimated_tokens =
    ltb policy.ai_daily_request_limit (usage.daily_requests + 1)
    || ltb policy.ai_monthly_request_limit (usage.monthly_requests + 1)
    || ltb policy.ai_daily_token_limit (usage.daily_tokens + estimated_tokens)
    || ltb policy.ai_monthly_token_limit (usage.monthly_tokens + estimated_tokens)

abbrev pub reservation : UsageController → ℕ → ℕ → ℕ → ℕ → ℕ → ℕ → UsageRecord
reservation c organization_id run_id candidate_count now id created_at = record {
  id = id;
  organization_id = organization_id;
  run_id = run_id;
  provider = c.provider_name;
  model_version = c.model_version;
  status = UsageStatus.reserved;
  reserved_requests = 1;
  reserved_tokens = candidate_count * c.estimated_tokens_per_candidate;
  candidate_count = candidate_count;
  input_tokens = 0;
  output_tokens = 0;
  created_at = created_at;
  expires_at = now + c.reservation_ttl_seconds * 1_000_000;
  finalized_at = none;
  released_at = none;
}

unfoldable pub find_policy : UsageStore → ℕ → Option UsagePolicy
find_policy s organization_id = find? (λ p. p.organization_id == organization_id) s.policies

-- The unit of work of `reserve`.
unfoldable pub reserve_metered :
    UsageController → UsageStore → ℕ → ℕ → ℕ → ℕ → ℕ → ℕ → Answer (UsageStore × ℕ)
unfolding usage_summary over_limits
reserve_metered c s organization_id run_id candidate_count now id created_at = do
  refuse_if (candidate_count == 0) invalid_value
  policy ← or_refuse (find_policy s organization_id) record_not_found
  refuse_if (not policy.hosted_ai_enabled) ai_usage_limit
  let s₁ : UsageStore = record s { usage = release_expired organization_id now s.usage }
  refuse_if
      (over_limits policy (usage_summary c s₁.usage organization_id now)
        (candidate_count * c.estimated_tokens_per_candidate))
      ai_usage_limit
  reserve_usage s₁ (reservation c organization_id run_id candidate_count now id created_at)

unfoldable pub reserved_id : UsageStore → Answer (UsageStore × ℕ) → UsageStore × Answer (Option ℕ)
reserved_id s (answered (s', id)) = (s', answered (some id))
reserved_id s (refused e) = (s, refused e)

-- `reserve`; an error rolls back.
unfoldable pub reserve :
    UsageController → UsageStore → ℕ → ℕ → ℕ → ℕ → ℕ → ℕ → UsageStore × Answer (Option ℕ)
unfolding is_metered reserved_id reserve_metered
reserve c s organization_id run_id candidate_count now id created_at =
    if not (is_metered c)
    then (s, answered none)
    else reserved_id s
        (reserve_metered c s organization_id run_id candidate_count now id created_at)

-- The checks of `__init__`.
unfoldable pub new_controller : UsageController → Answer UsageController
new_controller c = do
  refuse_if (ltb c.estimated_tokens_per_candidate 1) invalid_value
  refuse_if (ltb c.reservation_ttl_seconds 30) invalid_value
  answered c

-- `summary`
unfoldable pub organization_usage :
    UsageController → UsageStore → ℕ → ℕ → Answer (UsageStore × UsageSummary)
organization_usage c s organization_id now = do
  _ ← or_refuse (find_policy s organization_id) record_not_found
  let s₁ : UsageStore = record s { usage = release_expired organization_id now s.usage }
  answered (s₁, usage_summary c s₁.usage organization_id now)
