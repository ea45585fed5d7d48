-- ===== src/Reconciliation/Conservation.antt =====
-- `ReconciliationEngine.reconcile` as a whole: when it answers, and that it loses no record.
use reconcileflow_ai.Prelude.{◌≤◌, ◌≡◌, ◌↔◌, true, List, arith, Text}
use reconcileflow_ai.Prelude.Count.{count}
use reconcileflow_ai.Prelude.Sorting.{sort, count-sort}
use reconcileflow_ai.Models.{BankTransaction, ErpInvoice, GatewaySettlementEntry}
use reconcileflow_ai.Reconciliation.Results.{ReconciliationResult}
use reconcileflow_ai.Reconciliation.Matching.{ReconciliationEngine}
use reconcileflow_ai.Reconciliation.Grouping.{bank_leb, invoice_leb, gateway_leb}
use reconcileflow_ai.Reconciliation.Outcomes.{bank_ids, invoice_ids, gateway_ids}
use reconcileflow_ai.Reconciliation.Engine.{all_distinct, finished, ok, reconcile, reconcile_sorted}
use reconcileflow_ai.Reconciliation.Identifiers.{all_distinct_iff}
use reconcileflow_ai.Reconciliation.Tracking.{listed_banks, listed_invoices, listed_gateways}
use reconcileflow_ai.Reconciliation.Partition.{finished_partition}

-- No identifier repeats within its own source.
abbrev pub UniqueIds : List BankTransaction → List ErpInvoice → List GatewaySettlementEntry → Type 0
UniqueIds banks erp gateways =
    ((x : Text) → count x (bank_ids banks) ≤ 1)
    × ((x : Text) → count x (invoice_ids erp) ≤ 1)
    × ((x : Text) → count x (gateway_ids gateways) ≤ 1)

-- Every record stands in the results as often as in the input.
abbrev pub Conserves :
    List BankTransaction
    → List ErpInvoice
    → List GatewaySettlementEntry
    → List ReconciliationResult
    → Type 0
Conserves banks erp gateways rs =
    (x : Text)
    → (count x (listed_banks rs) ≡ count x (bank_ids banks))
      × (count x (listed_invoices rs) ≡ count x (invoice_ids erp))
      × (count x (listed_gateways rs) ≡ count x (gateway_ids gateways))

module _ (e : ReconciliationEngine) where
  sorted_ok :
      (banks : List BankTransaction) (erp : List ErpInvoice)
      (gateways : List GatewaySettlementEntry) (rs : List ReconciliationResult)
      → reconcile_sorted e banks erp gateways ≡ ok rs
      → (all_distinct (bank_ids banks) ≡ true)
        × (all_distinct (invoice_ids erp) ≡ true)
        × (all_distinct (gateway_ids gateways) ≡ true)
        × (rs ≡ (finished e banks erp gateways).results)
  unfolding reconcile_sorted
  sorted_ok banks erp gateways rs h = ground arith

  sorted-Conserves :
      (banks : List BankTransaction) (erp : List ErpInvoice)
      (gateways : List GatewaySettlementEntry) (rs : List ReconciliationResult)
      → reconcile_sorted e banks erp gateways ≡ ok rs
      → UniqueIds banks erp gateways × Conserves banks erp gateways rs
  sorted-Conserves banks erp gateways rs h =
      let (b, i, g, same) = sorted_ok banks erp gateways rs h in
      let ub = (all_distinct_iff _).0 b in
      let ui = (all_distinct_iff _).0 i in
      let ug = (all_distinct_iff _).0 g in
      ((ub, ui, ug), λ x. rw same (finished_partition e x banks erp gateways (ub x) (ui x) (ug x)))

  sorted_answers :
      (banks : List BankTransaction) (erp : List ErpInvoice)
      (gateways : List GatewaySettlementEntry)
      → UniqueIds banks erp gateways
      → reconcile_sorted e banks erp gateways ≡ ok (finished e banks erp gateways).results
  unfolding reconcile_sorted
  sorted_answers banks erp gateways (ub, ui, ug) = rw (
    (all_distinct_iff (bank_ids banks)).1 ub,
    (all_distinct_iff (invoice_ids erp)).1 ui,
    (all_distinct_iff (gateway_ids gateways)).1 ug,
  )

  -- Sorting changes no count.
  sorted_UniqueIds :
      (banks : List BankTransaction) (erp : List ErpInvoice)
      (gateways : List GatewaySettlementEntry)
      → UniqueIds (sort bank_leb banks) (sort invoice_leb erp) (sort gateway_leb gateways)
        ↔ UniqueIds banks erp gateways
  sorted_UniqueIds banks erp gateways = (
    λ (b, i, g). (
      λ x. omega (arith, b x, count-sort x (λ bank. bank.source_record_id) bank_leb banks),
      λ x. omega (arith, i x, count-sort x (λ invoice. invoice.invoice_id) invoice_leb erp),
      λ x. omega (arith, g x, count-sort x (λ entry. entry.source_record_id) gateway_leb gateways),
    ),
    λ (b, i, g). (
      λ x. omega (arith, b x, count-sort x (λ bank. bank.source_record_id) bank_leb banks),
      λ x. omega (arith, i x, count-sort x (λ invoice. invoice.invoice_id) invoice_leb erp),
      λ x. omega (arith, g x, count-sort x (λ entry. entry.source_record_id) gateway_leb gateways),
    ),
  )

  -- When `reconcile` answers, every bank transaction, every invoice and every gateway entry of the
  -- input stands in the results exactly as often as in the input: no identifier that the results
  -- name is invented, none disappears, and none is used by two results.
  pub reconcile-Conserves :
      (banks : List BankTransaction) (erp : List ErpInvoice)
      (gateways : List GatewaySettlementEntry) (rs : List ReconciliationResult)
      → reconcile e banks erp gateways ≡ ok rs
      → UniqueIds banks erp gateways × Conserves banks erp gateways rs
  unfolding reconcile
  reconcile-Conserves banks erp gateways rs h =
      let (u, c) = sorted-Conserves _ _ _ rs h in
      (
        (sorted_UniqueIds banks erp gateways).0 u,
        λ x. (
          omega (arith, c x, count-sort x (λ bank. bank.source_record_id) bank_leb banks),
          omega (arith, c x, count-sort x (λ invoice. invoice.invoice_id) invoice_leb erp),
          omega (arith, c x, count-sort x (λ entry. entry.source_record_id) gateway_leb gateways),
        ),
      )

  -- `reconcile` answers exactly when no identifier repeats within its source; otherwise it raises.
  pub reconcile_answers_iff :
      (banks : List BankTransaction) (erp : List ErpInvoice)
      (gateways : List GatewaySettlementEntry)
      → ((rs : List ReconciliationResult) × (reconcile e banks erp gateways ≡ ok rs))
        ↔ UniqueIds banks erp gateways
  unfolding reconcile
  reconcile_answers_iff banks erp gateways = (
    λ (rs, h). (reconcile-Conserves banks erp gateways rs h).0,
    λ u. (_, sorted_answers _ _ _ ((sorted_UniqueIds banks erp gateways).1 u)),
  )
