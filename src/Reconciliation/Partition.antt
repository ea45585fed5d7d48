-- ===== src/Reconciliation/Partition.antt =====
-- The bookkeeping of the engine's phases put together: the records of the input and of the results.
use reconcileflow_ai.Prelude.{
  ◌+◌, ◌≤◌, ◌≡◌, refl, inl, inr, List, [], ◌∷◌, arith, Text, ltb, length, Bool-cases, ◌∙◌, ap,
}
use reconcileflow_ai.Prelude.Count.{count, count-append, filter_covers}
use reconcileflow_ai.Models.{BankTransaction, ErpInvoice, GatewaySettlementEntry}
use reconcileflow_ai.Reconciliation.Matching.{ReconciliationEngine}
use reconcileflow_ai.Reconciliation.Grouping.{
  Group, members, group_by, same_fingerprint, same_settlement, duplicate_leb, settlement_leb,
}
use reconcileflow_ai.Reconciliation.GroupCounts.{count-group_by, count-flat-sort}
use reconcileflow_ai.Reconciliation.Progress.{Progress, start, settle, mark, add}
use reconcileflow_ai.Reconciliation.Outcomes.{
  bank_ids, invoice_ids, gateway_ids, duplicate_outcome, exact_outcome, settlement_outcome,
}
use reconcileflow_ai.Reconciliation.Phases.{
  duplicate_step, exact_step, settlement_step, tolerance_step, many_to_one_step, one_to_many_step,
  awaiting_step, free_bank, free_invoice, leftover_bank_step,
}
use reconcileflow_ai.Reconciliation.Engine.{
  loop, settlement_groups, duplicate_groups, matched_exactly, matched_loosely, finished,
}
use reconcileflow_ai.Reconciliation.Tracking.{
  Fits-filter, start-Tracks, listed_banks, listed_invoices, listed_gateways,
}
use reconcileflow_ai.Reconciliation.Steps.{
  Kept, duplicate_step-Tracks, exact_step-Tracks, settlement_step-Tracks, tolerance_step-Tracks,
}
use reconcileflow_ai.Reconciliation.LateSteps.{
  many_to_one_step-Tracks, one_to_many_step-Tracks, awaiting_step-Tracks,
}
use reconcileflow_ai.Reconciliation.Loops.{
  total, total-ids, total-members, loop_budget, loop_keeps, leftover_banks, leftover_invoices,
  awaiting_covers,
}

module _ (e : ReconciliationEngine) (x : Text) (banks : List BankTransaction)
    (erp : List ErpInvoice) (gateways : List GatewaySettlementEntry) where
  -- How much the first steps mark of each kind.
  duplicate_step_marks :
      (p : Progress) (g : Group BankTransaction)
      → let q = duplicate_step e erp p g in
        (count x q.used_banks ≤ count x (bank_ids (members g)) + count x p.used_banks)
        × (q.used_gateways ≡ p.used_gateways)
  unfolding duplicate_step settle mark add duplicate_outcome
  duplicate_step_marks p g = elim (Bool-cases (ltb (length (members g)) 2)) [
    | inl few ↦ rw (few, duplicate_step) (omega arith, refl)
    | inr many ↦
        rw (many, duplicate_step)
          (omega (arith, count-append x (bank_ids (members g)) p.used_banks), refl)
  ]

  exact_step_marks :
      (p : Progress) (invoice : ErpInvoice)
      → (exact_step e banks p invoice).used_gateways ≡ p.used_gateways
  unfolding exact_step settle mark add exact_outcome
  exact_step_marks p invoice = ground arith

  settlement_step_marks :
      (p : Progress) (g : Group GatewaySettlementEntry)
      → count x (settlement_step e banks erp p g).used_gateways
        ≤ count x (gateway_ids (members g)) + count x p.used_gateways
  unfolding settlement_step settle mark add settlement_outcome
  settlement_step_marks p g =
      ground (arith, count-append x (gateway_ids (members g)) p.used_gateways)

  -- Phases 1 to 3 keep the books, and the gateways are untouched before phase 3.
  abbrev Early : Progress → Type 0
  Early p = Kept e x banks erp gateways p × (count x p.used_gateways ≡ 0)

  after_duplicates : Early (loop (duplicate_step e erp) start (duplicate_groups banks))
  unfolding start duplicate_groups count
  after_duplicates =
      loop_budget Early (λ p. count x p.used_banks) (λ g. count x (bank_ids (members g)))
        (count x (bank_ids banks)) (duplicate_step e erp)
        (λ p g t fits. (
          (
            duplicate_step-Tracks e x banks erp gateways p g t.0 fits,
            rw (duplicate_step_marks p g).1 t.1,
          ),
          (duplicate_step_marks p g).0,
        ))
        (duplicate_groups banks) start
        (omega (
          arith,
          total-members x (λ bank. bank.source_record_id) (duplicate_groups banks),
          count-flat-sort x (λ bank. bank.source_record_id) duplicate_leb
              (group_by same_fingerprint banks),
          count-group_by x (λ bank. bank.source_record_id) same_fingerprint banks,
        ))
        (start-Tracks x _ _ _, refl)

  after_exact :
      Early
        (loop (exact_step e banks) (loop (duplicate_step e erp) start (duplicate_groups banks)) erp)
  after_exact =
      loop_keeps Early (λ invoice. count x (invoice.invoice_id ∷ [])) (count x (invoice_ids erp))
        (exact_step e banks)
        (λ p invoice t present. (
          exact_step-Tracks e x banks erp gateways p invoice t.0 present,
          rw (exact_step_marks p invoice) t.1,
        ))
        erp _ (omega (arith, total-ids x (λ invoice. invoice.invoice_id) erp)) after_duplicates

  -- The members of the settlement groups are the gateway entries.
  count-settlement_groups :
      total (λ g. count x (gateway_ids (members g))) (settlement_groups gateways)
      ≡ count x (gateway_ids gateways)
  unfolding settlement_groups
  count-settlement_groups =
      total-members x (λ entry. entry.source_record_id) _
      ∙ count-flat-sort x (λ entry. entry.source_record_id) settlement_leb
          (group_by same_settlement gateways)
      ∙ count-group_by x (λ entry. entry.source_record_id) same_settlement gateways

  matched_exactly-Kept : Kept e x banks erp gateways (matched_exactly e banks erp gateways)
  unfolding matched_exactly
  matched_exactly-Kept =
      loop_budget (Kept e x banks erp gateways) (λ p. count x p.used_gateways)
        (λ g. count x (gateway_ids (members g))) (count x (gateway_ids gateways))
        (settlement_step e banks erp)
        (λ p g t fits.
          (settlement_step-Tracks e x banks erp gateways p g t fits, settlement_step_marks p g))
        (settlement_groups gateways) _ (omega (arith, count-settlement_groups, after_exact.1))
        after_exact.0

  matched_loosely-Kept : Kept e x banks erp gateways (matched_loosely e banks erp gateways)
  unfolding matched_loosely
  matched_loosely-Kept =
      let K = Kept e x banks erp gateways in
      let by_invoice = λ (invoice : ErpInvoice). count x (invoice.invoice_id ∷ []) in
      loop_keeps K by_invoice (count x (invoice_ids erp)) (one_to_many_step e banks)
        (one_to_many_step-Tracks e x banks erp gateways) erp _
        (omega (arith, total-ids x (λ invoice. invoice.invoice_id) erp))
        (loop_keeps K (λ bank. count x (bank.source_record_id ∷ [])) (count x (bank_ids banks))
          (many_to_one_step e erp) (many_to_one_step-Tracks e x banks erp gateways) banks _
          (omega (arith, total-ids x (λ bank. bank.source_record_id) banks))
          (loop_keeps K by_invoice (count x (invoice_ids erp)) (tolerance_step e banks)
            (tolerance_step-Tracks e x banks erp gateways) erp _
            (omega (arith, total-ids x (λ invoice. invoice.invoice_id) erp)) matched_exactly-Kept))

  -- After phase 7 every gateway entry is used.
  abbrev awaited : Progress
  awaited =
      loop (awaiting_step erp) (matched_loosely e banks erp gateways) (settlement_groups gateways)

  awaited-Kept : Kept e x banks erp gateways awaited
  awaited-Kept =
      loop_keeps (Kept e x banks erp gateways) (λ g. count x (gateway_ids (members g)))
        (count x (gateway_ids gateways)) (awaiting_step erp)
        (awaiting_step-Tracks e x banks erp gateways) (settlement_groups gateways) _
        (omega (arith, count-settlement_groups)) matched_loosely-Kept

  -- Each identifier is listed as often as the sorted input has it.
  pub finished_partition :
      count x (bank_ids banks) ≤ 1
      → count x (invoice_ids erp) ≤ 1
      → count x (gateway_ids gateways) ≤ 1
      → let rs = (finished e banks erp gateways).results in
        (count x (listed_banks rs) ≡ count x (bank_ids banks))
        × (count x (listed_invoices rs) ≡ count x (invoice_ids erp))
        × (count x (listed_gateways rs) ≡ count x (gateway_ids gateways))
  unfolding finished
  finished_partition ub ui ug =
      let k = awaited-Kept in
      let q = loop leftover_bank_step awaited banks in
      let (b, i, g, same) = leftover_banks x banks awaited in
      let (i', b', g') = leftover_invoices x erp q in
      let bank_id = λ (bank : BankTransaction). bank.source_record_id in
      let invoice_id = λ (invoice : ErpInvoice). invoice.invoice_id in
      let fit_b =
        Fits-filter x (bank_ids banks) awaited.used_banks bank_id (free_bank awaited) banks
          (λ a h. ground arith) (omega arith) k.bank_within in
      let fit_i =
        Fits-filter x (invoice_ids erp) q.used_invoices invoice_id (free_invoice q) erp
          (λ a h. ground arith) (omega arith) (rw same k.invoice_within) in
      (
        omega (arith, b, b', fit_b, k, filter_covers x bank_id awaited.used_banks banks),
        omega (
          arith,
          i,
          i',
          fit_i,
          k,
          ap (count x) same,
          filter_covers x invoice_id q.used_invoices erp,
        ),
        omega (
          arith,
          g,
          g',
          k,
          count-settlement_groups,
          awaiting_covers x erp (settlement_groups gateways) (matched_loosely e banks erp gateways),
        ),
      )
