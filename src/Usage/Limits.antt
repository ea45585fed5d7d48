-- ===== src/Usage/Limits.antt =====
-- The usage of an organization, after a reservation and after a finalization, and its limits.
use mathlib.Core.List.{Memᴰ}
use reconcileflow_ai.Prelude.{
  ℕ, ◌+◌, ◌<◌, ◌≤◌, ◌≡◌, refl, ap, subst, inl, inr, true, false, not, ◌&&◌, some, List, [], ◌∷◌,
  ◌++◌, any, if◌then◌else◌, ◌==◌, ltb, Bool-cases, arith,
}
use reconcileflow_ai.Prelude.Keyed.{total, total-append, total_one, total-put, put, Keyed}
use reconcileflow_ai.Jobs.Table.{find?-Memᴰ}
use reconcileflow_ai.Jobs.Records.{Run}
use reconcileflow_ai.Accounts.Records.{record_not_found}
use reconcileflow_ai.Accounts.Store.{Answer, answered, refused, or_refuse}
use reconcileflow_ai.Accounts.Answers.{bind_answered, unless, or_refuse-some}
use reconcileflow_ai.Usage.Records.{
  UsageStatus, UsageRecord, UsagePolicy, UsageStore, is_reserved, is_finalized, usage_key,
  reserve_usage, get_usage, finalized_usage, finalize_usage, release_expired, counts, requests_of,
  tokens_of, summarize,
}
use reconcileflow_ai.Usage.Controller.{
  UsageController, is_metered, UsageSummary, day_start, usage_summary, over_limits, reservation,
  find_policy, reserve_metered, reserved_id, reserve,
}

-- A usage within the limits of a policy.
abbrev pub WithinLimits : UsagePolicy → UsageSummary → Type 0
WithinLimits policy usage =
    (usage.daily_requests ≤ policy.ai_daily_request_limit)
    × (usage.monthly_requests ≤ policy.ai_monthly_request_limit)
    × (usage.daily_tokens ≤ policy.ai_daily_token_limit)
    × (usage.monthly_tokens ≤ policy.ai_monthly_token_limit)

append_requests :
    (usage : List UsageRecord) (r : UsageRecord) (o since now : ℕ)
    → r.reserved_requests ≡ 1
    → total (requests_of o since now) (usage ++ r ∷ []) ≤ total (requests_of o since now) usage + 1
unfolding requests_of
append_requests usage r o since now h =
    let small : requests_of o since now r ≤ 1 = ground (arith, h) in
    omega (
      arith,
      small,
      total-append (requests_of o since now) usage (r ∷ []),
      total_one (requests_of o since now) r,
    )

append_tokens :
    (usage : List UsageRecord) (r : UsageRecord) (o since now : ℕ)
    → is_finalized r.status ≡ false
    → total (tokens_of o since now) (usage ++ r ∷ [])
      ≤ total (tokens_of o since now) usage + r.reserved_tokens
unfolding tokens_of
append_tokens usage r o since now h =
    let small : tokens_of o since now r ≤ r.reserved_tokens = ground (arith, h) in
    omega (
      arith,
      small,
      total-append (tokens_of o since now) usage (r ∷ []),
      total_one (tokens_of o since now) r,
    )

-- A row that is added within the limits.
append-WithinLimits :
    (c : UsageController) (policy : UsagePolicy) (usage : List UsageRecord) (r : UsageRecord)
    (o now : ℕ)
    → r.reserved_requests ≡ 1
    → is_finalized r.status ≡ false
    → over_limits policy (usage_summary c usage o now) r.reserved_tokens ≡ false
    → WithinLimits policy (usage_summary c (usage ++ r ∷ []) o now)
unfolding over_limits usage_summary summarize
append-WithinLimits c policy usage r o now one_request open_row h =
    let day = append_requests usage r o (day_start now) now one_request in
    let month = append_requests usage r o (c.month_start now) now one_request in
    let day_tokens = append_tokens usage r o (day_start now) now open_row in
    let month_tokens = append_tokens usage r o (c.month_start now) now open_row in
    (
      ground (arith, day),
      ground (arith, month),
      ground (arith, day_tokens),
      ground (arith, month_tokens),
    )

reserve_usage_lem :
    (s s' : UsageStore) (r : UsageRecord) (id : ℕ)
    → reserve_usage s r ≡ answered (s', id)
    → record s { usage = s.usage ++ r ∷ [] } ≡ s'
unfolding reserve_usage
reserve_usage_lem s s' r id h =
    unless
      (not (any (λ (x : Run). x.id == r.run_id && x.organization_id == r.organization_id) s.runs)) _
      _ _ h
      λ _ h1.
        unless (any (λ x. x.id == r.id) s.usage) _ _ _ h1
          λ _ h2. let after : UsageStore = record s { usage = s.usage ++ r ∷ [] } in cc

-- What a reservation that is made has found and leaves.
abbrev pub Reserved : UsageController → UsageStore → UsageStore → ℕ → ℕ → Type 0
Reserved c s s' organization_id now =
    (policy : UsagePolicy) × (find_policy s organization_id ≡ some policy)
    × (policy.hosted_ai_enabled ≡ true)
    × WithinLimits policy (usage_summary c s'.usage organization_id now)

reserve_metered-Reserved :
    (c : UsageController) (s s' : UsageStore)
    (organization_id run_id candidate_count now id created_at made : ℕ)
    → reserve_metered c s organization_id run_id candidate_count now id created_at
      ≡ answered (s', made)
    → Reserved c s s' organization_id now
unfolding reserve_metered
reserve_metered-Reserved c s s' organization_id run_id candidate_count now id created_at made h =
    unless (candidate_count == 0) _ _ _ h λ _ h1.
      bind_answered (or_refuse (find_policy s organization_id) record_not_found) _ _ h1
        λ policy found h2. unless (not policy.hosted_ai_enabled) _ _ _ h2 λ on h3.
          let usage = release_expired organization_id now s.usage in
          let r : UsageRecord =
            reservation c organization_id run_id candidate_count now id created_at in
          unless (over_limits policy (usage_summary c usage organization_id now) r.reserved_tokens)
            _ _ _ h3
            λ within h4.
              let after = reserve_usage_lem (record s { usage = usage }) s' r made h4 in
              let kept =
                append-WithinLimits c policy usage r organization_id now refl refl within in
              (
                policy,
                or_refuse-some _ record_not_found policy found,
                ground arith,
                subst
                    (λ (v : UsageStore).
                      WithinLimits policy (usage_summary c v.usage organization_id now))
                    after kept,
              )

reserved_id_lem :
    (s : UsageStore) (m : Answer (UsageStore × ℕ)) (made : ℕ)
    → (reserved_id s m).1 ≡ answered (some made)
    → (s' : UsageStore) × (m ≡ answered (s', made)) × ((reserved_id s m).0 ≡ s')
unfolding reserved_id
reserved_id_lem s (answered (s', id)) made h =
    let e : id ≡ made = cc in (s', ap (λ k. answered (s', k)) e, refl)
reserved_id_lem s (refused e) made h = absurd (cc)

-- When a reservation is made, hosted inference is enabled for the organization, and its requests and
-- tokens of the day and of the month, the reservation counted, are within its limits.
pub reserve_stays-WithinLimits :
    (c : UsageController) (s : UsageStore)
    (organization_id run_id candidate_count now id created_at made : ℕ)
    → (reserve c s organization_id run_id candidate_count now id created_at).1
      ≡ answered (some made)
    → Reserved c s
        (reserve c s organization_id run_id candidate_count now id created_at).0
        organization_id
        now
unfolding reserve
reserve_stays-WithinLimits c s organization_id run_id candidate_count now id created_at made =
    let m = reserve_metered c s organization_id run_id candidate_count now id created_at in
    elim (Bool-cases (is_metered c)) [
      | inr e ↦ rw (e, if◌then◌else◌) (λ h. absurd (cc))
      | inl e ↦
          rw (e, if◌then◌else◌)
            (λ h.
              let (s', w, es) = reserved_id_lem s m made h in
              rw es (
                reserve_metered-Reserved c s s' organization_id run_id candidate_count now id
                  created_at made w))
    ]

get_usage_lem :
    (s : UsageStore) (id organization_id : ℕ) (r : UsageRecord)
    → get_usage s id organization_id ≡ answered r
    → Memᴰ r s.usage
unfolding get_usage
get_usage_lem s id organization_id r h =
    (find?-Memᴰ (λ x. x.id == id && x.organization_id == organization_id) r s.usage
      (or_refuse-some _ record_not_found r h)).0

reserved_not_final :
    (status : UsageStatus) → is_reserved status ≡ true → is_finalized status ≡ false
unfolding is_reserved is_finalized
reserved_not_final UsageStatus.reserved h = refl
reserved_not_final UsageStatus.finalized h = absurd (cc)
reserved_not_final UsageStatus.released h = absurd (cc)

-- A live reservation is counted before and after it is finalized.
counts_same :
    (o since now input_tokens output_tokens at : ℕ) (r : UsageRecord)
    → is_reserved r.status ≡ true
    → now < r.expires_at
    → counts o since now (finalized_usage r input_tokens output_tokens at) ≡ counts o since now r
unfolding counts is_finalized
counts_same o since now input_tokens output_tokens at r h live =
    let not_yet = reserved_not_final r.status h in
    let ends : ltb now r.expires_at ≡ true = ground arith in rw (h, not_yet, ends) refl

requests_same :
    (o since now input_tokens output_tokens at : ℕ) (r : UsageRecord)
    → is_reserved r.status ≡ true
    → now < r.expires_at
    → requests_of o since now (finalized_usage r input_tokens output_tokens at)
      ≡ requests_of o since now r
unfolding requests_of
requests_same o since now input_tokens output_tokens at r h live =
    rw (counts_same o since now input_tokens output_tokens at r h live) refl

tokens_less :
    (o since now input_tokens output_tokens at : ℕ) (r : UsageRecord)
    → is_reserved r.status ≡ true
    → now < r.expires_at
    → input_tokens + output_tokens ≤ r.reserved_tokens
    → tokens_of o since now (finalized_usage r input_tokens output_tokens at)
      ≤ tokens_of o since now r
unfolding tokens_of is_finalized
tokens_less o since now input_tokens output_tokens at r h live few =
    let not_yet = reserved_not_final r.status h in
    elim (Bool-cases (counts o since now r)) [
      | inl e ↦
          rw
            (
              counts_same o since now input_tokens output_tokens at r h live,
              e,
              not_yet,
              if◌then◌else◌,
            )
            few
      | inr e ↦
          rw (counts_same o since now input_tokens output_tokens at r h live, e, if◌then◌else◌)
            (omega arith)
    ]

-- Where a reservation's identifier names one row: the finalization of a reservation that has not
-- expired, for no more tokens than it reserved, adds nothing to the requests and the tokens of any
-- period.
pub finalize_adds_nothing :
    (s s' : UsageStore) (id organization_id input_tokens output_tokens at since now : ℕ)
    (r : UsageRecord)
    → Keyed usage_key s.usage
    → get_usage s id organization_id ≡ answered r
    → now < r.expires_at
    → input_tokens + output_tokens ≤ r.reserved_tokens
    → finalize_usage s id organization_id input_tokens output_tokens at ≡ answered s'
    → (total (requests_of organization_id since now) s'.usage
        ≡ total (requests_of organization_id since now) s.usage)
      × (total (tokens_of organization_id since now) s'.usage
          ≤ total (tokens_of organization_id since now) s.usage)
unfolding finalize_usage
finalize_adds_nothing s s' id organization_id input_tokens output_tokens at since now r u g live few
      h =
    let here = get_usage_lem s id organization_id r g in
    let r' : UsageRecord = finalized_usage r input_tokens output_tokens at in
    bind_answered (get_usage s id organization_id) _ _ h λ x found h1.
      let same : r ≡ x = cc in
      unless (not (is_reserved x.status)) _ _ _ h1 λ open_row h2.
        let reserved_row : is_reserved r.status ≡ true = rw same (ground arith) in
        let after : record s { usage = put usage_key r' s.usage } ≡ s' = rw same (cc) in
        subst
          (λ (v : UsageStore).
            (total (requests_of organization_id since now) v.usage
              ≡ total (requests_of organization_id since now) s.usage)
            × (total (tokens_of organization_id since now) v.usage
                ≤ total (tokens_of organization_id since now) s.usage))
          after
          (
            omega (
              arith,
              requests_same organization_id since now input_tokens output_tokens at r reserved_row
                  live,
              total-put (requests_of organization_id since now) usage_key r r' s.usage u here refl,
            ),
            omega (
              arith,
              tokens_less organization_id since now input_tokens output_tokens at r reserved_row
                  live few,
              total-put (tokens_of organization_id since now) usage_key r r' s.usage u here refl,
            ),
          )
