-- ===== src/Usage/Closing.antt =====
-- A reservation after it has been finalized.
use reconcileflow_ai.Prelude.{ℕ, ◌≡◌, refl, subst, Bool, true, not, ◌&&◌, find?, ◌==◌}
use reconcileflow_ai.Prelude.Keyed.{put, find?-put}
use reconcileflow_ai.Jobs.Table.{find?-Memᴰ}
use reconcileflow_ai.Accounts.Records.{record_not_found, persistence_conflict}
use reconcileflow_ai.Accounts.Store.{answered, refused}
use reconcileflow_ai.Accounts.Answers.{bind_answered, unless, or_refuse-some}
use reconcileflow_ai.Usage.Records.{
  UsageRecord, UsageStore, is_reserved, usage_key, get_usage, finalized_usage, finalize_usage,
  release_usage,
}

written :
    (s : UsageStore) (id organization_id : ℕ) (r row : UsageRecord)
    → get_usage s id organization_id ≡ answered r
    → row.id ≡ r.id
    → row.organization_id ≡ r.organization_id
    → get_usage (record s { usage = put usage_key row s.usage }) id organization_id ≡ answered row
unfolding get_usage
written s id organization_id r row g same_id same_organization =
    let test : UsageRecord → Bool = λ x. x.id == id && x.organization_id == organization_id in
    let found = or_refuse-some (find? test s.usage) record_not_found r g in
    let passes = (find?-Memᴰ test r s.usage found).1 in
    let kept : test row ≡ true = rw (same_id, same_organization) passes in
    rw (find?-put usage_key test row r s.usage kept same_id found) refl

-- A reservation that has been finalized cannot be finalized again, and a release of it changes
-- nothing.
pub finalized_is_closed :
    (s s' : UsageStore)
    (id organization_id input_tokens output_tokens at input_tokens' output_tokens' at' : ℕ)
    → finalize_usage s id organization_id input_tokens output_tokens at ≡ answered s'
    → (finalize_usage s' id organization_id input_tokens' output_tokens' at'
        ≡ refused persistence_conflict)
      × (release_usage s' id organization_id at' ≡ answered s')
unfolding finalize_usage release_usage is_reserved
finalized_is_closed s s' id organization_id input_tokens output_tokens at input_tokens'
      output_tokens' at' h =
    bind_answered (get_usage s id organization_id) _ _ h λ r g h1.
      unless (not (is_reserved r.status)) _ _ _ h1 λ _ h2.
        let row : UsageRecord = finalized_usage r input_tokens output_tokens at in
        let found = written s id organization_id r row g refl refl in
        let after : record s { usage = put usage_key row s.usage } ≡ s' = cc in
        subst
          (λ (v : UsageStore).
            (finalize_usage v id organization_id input_tokens' output_tokens' at'
              ≡ refused persistence_conflict)
            × (release_usage v id organization_id at' ≡ answered v))
          after (rw found refl, rw found refl)
