-- ===== src/Reconciliation/Tests.antt =====
-- Runs of the engine, and its theorems at concrete inputs.
use reconcileflow_ai.Prelude.{
  ℕ, ◌≤◌, ◌<◌, ◌≡◌, refl, ◌↔◌, ◌⊎◌, true, none, All, arith, text_eq, text_leb, contains,
  starts_with, filter, any, str, List, [], ◌∷◌, map, codes,
}
use reconcileflow_ai.Prelude.Int.{pos, ◌+ℤ◌, ◌-ℤ◌, sum}
use reconcileflow_ai.Prelude.Count.{member}
use reconcileflow_ai.Prelude.Sorting.{sort}
use reconcileflow_ai.Reconciliation.Results.{ReconciliationResult, Rule, accepts}
use reconcileflow_ai.Reconciliation.Matching.{
  matches, mentions, eligible, within_days, option_eq, sole, matching_combination,
}
use reconcileflow_ai.Reconciliation.Grouping.{
  group_by, same_fingerprint, same_settlement, bank_leb, invoice_leb, gateway_leb, duplicate_leb,
  settlement_leb,
}
use reconcileflow_ai.Reconciliation.Progress.{start, settle}
use reconcileflow_ai.Reconciliation.Outcomes.{
  duplicate_outcome, exact_outcome, settlement_outcome, tolerance_outcome, many_to_one_outcome,
  one_to_many_outcome, awaiting_outcome, unmatched_bank_outcome, unmatched_invoice_outcome,
}
use reconcileflow_ai.Reconciliation.Phases.{
  awaiting_linked, duplicate_step, exact_step, settlement_step, tolerance_step, many_to_one_step,
  one_to_many_step, awaiting_step, leftover_bank_step, leftover_invoice_step,
}
use reconcileflow_ai.Reconciliation.Engine.{
  Reconciled, ok, duplicate_source_ids, duplicate_groups, settlement_groups, reconcile,
}
use reconcileflow_ai.Reconciliation.Conservation.{
  UniqueIds, Conserves, reconcile-Conserves, reconcile_answers_iff,
}
use reconcileflow_ai.Reconciliation.SoleMatch.{IsSoleMatch, matching_combination-IsSoleMatch}
use reconcileflow_ai.Reconciliation.Justified.{Justified}
use reconcileflow_ai.Reconciliation.Soundness.{Balances, reconcile-Justified, reconcile-Balances}
use reconcileflow_ai.Reconciliation.Unreferenced.{awaiting_links_unreferenced}
use reconcileflow_ai.Models.{GatewaySettlementEntry}
use mathlib.Core.List.{Memᴰ}
use reconcileflow_ai.Reconciliation.Samples.{engine, banks, invoices, gateways, invoice, gateway}

abbrev results_of : Reconciled → List ReconciliationResult
results_of (ok rs) = rs
results_of (duplicate_source_ids label) = []

-- The engine with everything that a run goes through.
run : Reconciled
unfolding reconcile sort member text_eq text_leb contains starts_with filter any str ◌+ℤ◌ ◌-ℤ◌ sum
    mentions eligible within_days option_eq sole matching_combination group_by same_fingerprint
    same_settlement bank_leb invoice_leb gateway_leb duplicate_leb settlement_leb settle
    duplicate_outcome exact_outcome settlement_outcome tolerance_outcome many_to_one_outcome
    one_to_many_outcome awaiting_outcome unmatched_bank_outcome unmatched_invoice_outcome
    duplicate_step exact_step settlement_step tolerance_step many_to_one_step one_to_many_step
    awaiting_step leftover_bank_step leftover_invoice_step duplicate_groups settlement_groups
run = reconcile engine banks invoices gateways

abbrev sample_results : List ReconciliationResult
sample_results = results_of (reconcile engine banks invoices gateways)

sample_rules :
    map (λ r. r.rule) sample_results
    ≡ Rule.exact_reference_amount_currency ∷ Rule.gateway_net_to_bank
      ∷ Rule.multiple_invoices_to_bank ∷ Rule.gateway_awaiting_bank_settlement
      ∷ Rule.unmatched_bank_transaction ∷ Rule.unmatched_erp_invoice ∷ []
unfolding run
sample_rules = refl

reconcile-Conserves_example :
    UniqueIds banks invoices gateways × Conserves banks invoices gateways sample_results
unfolding run
reconcile-Conserves_example = reconcile-Conserves engine banks invoices gateways sample_results refl

reconcile_answers_iff_example :
    ((rs : List ReconciliationResult) × (reconcile engine banks invoices gateways ≡ ok rs))
    ↔ UniqueIds banks invoices gateways
reconcile_answers_iff_example = reconcile_answers_iff engine banks invoices gateways

reconcile-Justified_example :
    All
      (λ r.
        Justified engine
          record { banks = banks; invoices = invoices; gateways = gateways }
          r.outcome
        × (accepts r ≡ true))
      sample_results
unfolding run
reconcile-Justified_example = reconcile-Justified engine banks invoices gateways sample_results refl

reconcile-Balances_example :
    All (λ r. (r.requires_review ≡ true) ⊎ Balances (pos 100) r.outcome) sample_results
unfolding run
reconcile-Balances_example =
    reconcile-Balances engine banks invoices gateways sample_results refl (omega arith)

-- 3 + 4 is the only pair that makes 7.
matching_combination-IsSoleMatch_example :
    (2 ≤ 2)
    × (2 ≤ 5)
    × (2 ≤ 3)
    × IsSoleMatch pos (3 ∷ 9 ∷ 4 ∷ []) (pos 7) (3 ∷ 4 ∷ [])
    × ((m : ℕ) → 2 ≤ m → m < 2 → sole (matches pos (3 ∷ 9 ∷ 4 ∷ []) (pos 7) m) ≡ none)
unfolding run
matching_combination-IsSoleMatch_example =
    matching_combination-IsSoleMatch 5 pos (3 ∷ 9 ∷ 4 ∷ []) (pos 7) (3 ∷ 4 ∷ []) refl (λ e. cc)

abbrev silent_entry : GatewaySettlementEntry
silent_entry = gateway (codes "G9") (codes "S9") 101 70 60 none

-- The invoice of 42 has nothing to do with the entry of 70.
awaiting_links_unreferenced_example :
    Memᴰ (invoice (codes "I5") 96 42) (awaiting_linked invoices start (silent_entry ∷ []))
unfolding start member
awaiting_links_unreferenced_example =
    awaiting_links_unreferenced invoices start (silent_entry ∷ []) silent_entry
      (invoice (codes "I5") 96 42) (Memᴰ.head refl) refl
      (Memᴰ.tail (Memᴰ.tail (Memᴰ.tail (Memᴰ.tail (Memᴰ.head refl))))) refl refl
