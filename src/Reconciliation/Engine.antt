-- ===== src/Reconciliation/Engine.antt =====
-- backend/src/reconcileflow/reconciliation/engine.py: `reconcile` as its phases one after another.
use reconcileflow_ai.Prelude.{Bool, List, [], ◌∷◌, if◌then◌else◌, length, ◌==◌, Text}
use reconcileflow_ai.Prelude.Count.{member}
use reconcileflow_ai.Prelude.Sorting.{sort}
use reconcileflow_ai.Models.{BankTransaction, ErpInvoice, GatewaySettlementEntry}
use reconcileflow_ai.Reconciliation.Results.{ReconciliationResult}
use reconcileflow_ai.Reconciliation.Matching.{ReconciliationEngine}
use reconcileflow_ai.Reconciliation.Grouping.{
  Group, group_by, same_fingerprint, same_settlement, bank_leb, invoice_leb, gateway_leb,
  duplicate_leb, settlement_leb,
}
use reconcileflow_ai.Reconciliation.Progress.{Progress, start}
use reconcileflow_ai.Reconciliation.Outcomes.{bank_ids, invoice_ids, gateway_ids}
use reconcileflow_ai.Reconciliation.Phases.{
  duplicate_step, exact_step, settlement_step, tolerance_step, many_to_one_step, one_to_many_step,
  awaiting_step, leftover_bank_step, leftover_invoice_step,
}

-- `for item in items: …` over the state.
unfoldable pub loop {ℓ} : {A : Type ℓ} → (Progress → A → Progress) → Progress → List A → Progress
loop step p [] = p
loop step p (x ∷ xs) = loop step (step p x) xs

-- `set(identifiers)`
unfoldable pub distinct : List Text → List Text
distinct [] = []
distinct (x ∷ xs) = let rest = distinct xs in if member x xs then rest else x ∷ rest

-- `len(identifiers) == len(set(identifiers))`
unfoldable pub all_distinct : List Text → Bool
unfolding distinct
all_distinct xs = length xs == length (distinct xs)

pub data Label : Type 0 where
  bank invoice gateway : Label

-- `ValueError` of `_validate_unique_source_ids`, or the results.
pub data Reconciled : Type 0 where
  ok : List ReconciliationResult → Reconciled
  duplicate_source_ids : Label → Reconciled

-- The lists are sorted already.
unfoldable pub settlement_groups : List GatewaySettlementEntry → List (Group GatewaySettlementEntry)
settlement_groups gateways = sort settlement_leb (group_by same_settlement gateways)

unfoldable pub duplicate_groups : List BankTransaction → List (Group BankTransaction)
duplicate_groups banks = sort duplicate_leb (group_by same_fingerprint banks)

module _ (e : ReconciliationEngine) (banks : List BankTransaction) (erp : List ErpInvoice)
    (gateways : List GatewaySettlementEntry) where
  -- Phases 1 to 3.
  unfoldable pub matched_exactly : Progress
  unfolding loop start
  matched_exactly =
      loop (settlement_step e banks erp)
        (loop (exact_step e banks) (loop (duplicate_step e erp) start (duplicate_groups banks)) erp)
        (settlement_groups gateways)

  -- Phases 4 to 6.
  unfoldable pub matched_loosely : Progress
  unfolding loop matched_exactly
  matched_loosely =
      loop (one_to_many_step e banks)
        (loop (many_to_one_step e erp) (loop (tolerance_step e banks) matched_exactly erp) banks)
        erp

  -- Phases 7 and 8.
  unfoldable pub finished : Progress
  unfolding loop matched_loosely
  finished =
      loop leftover_invoice_step
        (loop leftover_bank_step
          (loop (awaiting_step erp) matched_loosely (settlement_groups gateways)) banks)
        erp

-- The body of `reconcile` after the sorting.
unfoldable pub reconcile_sorted :
    ReconciliationEngine
    → List BankTransaction
    → List ErpInvoice
    → List GatewaySettlementEntry
    → Reconciled
unfolding all_distinct finished
reconcile_sorted e banks erp gateways =
    if all_distinct (bank_ids banks)
    then if all_distinct (invoice_ids erp)
      then if all_distinct (gateway_ids gateways)
        then ok (finished e banks erp gateways).results
        else duplicate_source_ids gateway
      else duplicate_source_ids invoice
    else duplicate_source_ids bank

unfoldable pub reconcile :
    ReconciliationEngine
    → List BankTransaction
    → List ErpInvoice
    → List GatewaySettlementEntry
    → Reconciled
unfolding reconcile_sorted
reconcile e bank_transactions invoices gateway_entries =
    reconcile_sorted e (sort bank_leb bank_transactions) (sort invoice_leb invoices)
      (sort gateway_leb gateway_entries)
