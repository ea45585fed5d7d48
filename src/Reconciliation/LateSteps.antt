-- ===== src/Reconciliation/LateSteps.antt =====
-- Every phase of the engine keeps the books: phases 5 to 7.
use reconcileflow_ai.Prelude.{
  ◌≤◌, inl, inr, not, ◌||◌, [], ◌∷◌, List, arith, filter, Text, Bool-cases, List-cases, subst,
}
use reconcileflow_ai.Prelude.Count.{member, count}
use reconcileflow_ai.Models.{BankTransaction, ErpInvoice, GatewaySettlementEntry}
use reconcileflow_ai.Reconciliation.Matching.{ReconciliationEngine, eligible, matching_combination}
use reconcileflow_ai.Reconciliation.Grouping.{Group, members}
use reconcileflow_ai.Reconciliation.Progress.{Progress}
use reconcileflow_ai.Reconciliation.Outcomes.{
  bank_ids, invoice_ids, gateway_ids, many_to_one_outcome, one_to_many_outcome, awaiting_outcome,
}
use reconcileflow_ai.Reconciliation.Phases.{
  many_to_one_candidates, many_to_one_step, one_to_many_candidates, one_to_many_step, awaiting_step,
  free_gateway,
}
use reconcileflow_ai.Reconciliation.Combinations.{count-matching_combination}
use reconcileflow_ai.Reconciliation.Tracking.{Fits, Fits-filter, settle-Tracks}
use reconcileflow_ai.Reconciliation.Steps.{
  Fits-one, Kept, Fits-banks, Fits-invoices, no_banks, no_gateways,
}

module _ (e : ReconciliationEngine) (x : Text) (banks : List BankTransaction)
    (erp : List ErpInvoice) (gateways : List GatewaySettlementEntry) where
  many_to_one_candidates_fit :
      (p : Progress) (bank : BankTransaction)
      → Kept e x banks erp gateways p
      → Fits x (invoice_ids erp) p.used_invoices (invoice_ids (many_to_one_candidates e erp p bank))
  unfolding many_to_one_candidates
  many_to_one_candidates_fit p bank t =
      Fits-invoices e x banks erp gateways p _ t (λ a h. ground arith)

  one_to_many_candidates_fit :
      (p : Progress) (invoice : ErpInvoice)
      → Kept e x banks erp gateways p
      → Fits x (bank_ids banks) p.used_banks (bank_ids (one_to_many_candidates e banks p invoice))
  unfolding one_to_many_candidates
  one_to_many_candidates_fit p invoice t =
      Fits-banks e x banks erp gateways p _ t (λ a h. ground arith)

  -- Phase 5.
  pub many_to_one_step-Tracks :
      (p : Progress) (bank : BankTransaction)
      → Kept e x banks erp gateways p
      → count x (bank.source_record_id ∷ []) ≤ count x (bank_ids banks)
      → Kept e x banks erp gateways (many_to_one_step e erp p bank)
  unfolding many_to_one_step many_to_one_outcome
  many_to_one_step-Tracks p bank t present =
      elim (Bool-cases (member bank.source_record_id p.used_banks || not (eligible bank))) [
        | inl skipped ↦ rw (skipped, many_to_one_step) t
        | inr free ↦
            elim (List-cases (
              matching_combination e.config.maximum_group_size (λ invoice. invoice.amount_due)
                (many_to_one_candidates e erp p bank) bank.amount)) [
                  | inl empty ↦ rw (free, empty, many_to_one_step) t
                  | inr (a, rest, chosen) ↦
                      rw (free, chosen, many_to_one_step)
                        (settle-Tracks x _ _ _ p _ t
                          (Fits-one x _ _ _ (ground arith) present t.bank_within)
                          (omega (
                            arith,
                            count-matching_combination x (λ invoice. invoice.invoice_id)
                                e.config.maximum_group_size (λ invoice. invoice.amount_due) _
                                bank.amount _ chosen,
                            many_to_one_candidates_fit p bank t,
                          ))
                          (no_gateways e x banks erp gateways p t))
                ]
      ]

  -- Phase 6.
  pub one_to_many_step-Tracks :
      (p : Progress) (invoice : ErpInvoice)
      → Kept e x banks erp gateways p
      → count x (invoice.invoice_id ∷ []) ≤ count x (invoice_ids erp)
      → Kept e x banks erp gateways (one_to_many_step e banks p invoice)
  unfolding one_to_many_step one_to_many_outcome
  one_to_many_step-Tracks p invoice t present =
      elim (Bool-cases (member invoice.invoice_id p.used_invoices)) [
        | inl used ↦ rw (used, one_to_many_step) t
        | inr free ↦
            elim (List-cases (
              matching_combination e.config.maximum_group_size (λ bank. bank.amount)
                (one_to_many_candidates e banks p invoice) invoice.amount_due)) [
                  | inl empty ↦ rw (free, empty, one_to_many_step) t
                  | inr (a, rest, chosen) ↦
                      rw (free, chosen, one_to_many_step)
                        (settle-Tracks x _ _ _ p _ t
                          (omega (
                            arith,
                            count-matching_combination x (λ bank. bank.source_record_id)
                                e.config.maximum_group_size (λ bank. bank.amount) _
                                invoice.amount_due _ chosen,
                            one_to_many_candidates_fit p invoice t,
                          ))
                          (Fits-one x _ _ _ free present t.invoice_within)
                          (no_gateways e x banks erp gateways p t))
                ]
      ]

  -- Phase 7.
  pub awaiting_step-Tracks :
      (p : Progress) (group : Group GatewaySettlementEntry)
      → Kept e x banks erp gateways p
      → count x (gateway_ids (members group)) ≤ count x (gateway_ids gateways)
      → Kept e x banks erp gateways (awaiting_step erp p group)
  unfolding awaiting_step awaiting_outcome
  awaiting_step-Tracks p group t present =
      elim (List-cases (filter (free_gateway p) (members group))) [
        | inl empty ↦ rw (empty, awaiting_step) t
        | inr (a, rest, remaining) ↦
            rw (remaining, awaiting_step)
              (settle-Tracks x _ _ _ p _ t (no_banks e x banks erp gateways p t)
                (Fits-invoices e x banks erp gateways p _ t (λ a h. ground arith))
                (subst
                  (λ entries. Fits x (gateway_ids gateways) p.used_gateways (gateway_ids entries))
                  remaining
                  (Fits-filter x (gateway_ids gateways) p.used_gateways
                    (λ entry. entry.source_record_id) (free_gateway p) (members group)
                    (λ a h. ground arith) present t.gateway_within)))
      ]
