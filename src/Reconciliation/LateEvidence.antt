-- ===== src/Reconciliation/LateEvidence.antt =====
-- Phases 4 to 8 add only results that are justified.
use mathlib.Core.List.{Memᴰ}
use reconcileflow_ai.Prelude.{
  ◌≡◌, inl, inr, true, not, ◌||◌, List, ◌∷◌, All, any, filter, text_eq→eq, arith, Bool-cases,
  Option-cases, List-cases,
}
use reconcileflow_ai.Prelude.Int.{pos, abs, ◌-ℤ◌, ◌≤ℤ◌}
use reconcileflow_ai.Prelude.Count.{member}
use reconcileflow_ai.Prelude.Members.{All-map_of, All-filter}
use reconcileflow_ai.Models.{BankTransaction, ErpInvoice, GatewaySettlementEntry}
use reconcileflow_ai.Reconciliation.Matching.{
  ReconciliationEngine, eligible, sole, matching_combination,
}
use reconcileflow_ai.Reconciliation.Combinations.{matching_combination-All}
use reconcileflow_ai.Reconciliation.Grouping.{Group, members}
use reconcileflow_ai.Reconciliation.Progress.{Progress}
use reconcileflow_ai.Reconciliation.Phases.{
  tolerance_candidate, tolerance_step, awaiting_linked, awaiting_step, free_gateway, near,
  leftover_bank_step, leftover_invoice_step, refers_to, many_to_one_candidates, many_to_one_step,
  one_to_many_candidates, one_to_many_step,
}
use reconcileflow_ai.Reconciliation.Justified.{Given, AreFrom, IsPayment, Justified}
use reconcileflow_ai.Reconciliation.Evidence.{sole_All, Sound, add-Sound, settle-Sound}

module _ (e : ReconciliationEngine) (given : Given) where
  -- Phase 4.
  tolerance_candidate→IsPayment :
      (p : Progress) (invoice : ErpInvoice) (bank : BankTransaction)
      → Memᴰ bank given.banks
      → Memᴰ invoice given.invoices
      → tolerance_candidate e p invoice bank ≡ true
      → IsPayment e given bank invoice
        × (¬ (abs (bank.amount -ℤ invoice.amount_due) ≤ℤ pos 0))
        × (abs (bank.amount -ℤ invoice.amount_due) ≤ℤ e.config.amount_tolerance)
  unfolding tolerance_candidate
  tolerance_candidate→IsPayment p invoice bank b i h =
      ground (arith, text_eq→eq bank.currency invoice.currency)

  pub tolerance_step-Sound :
      (banks : List BankTransaction) (p : Progress) (invoice : ErpInvoice)
      → AreFrom given.banks banks
      → Sound e given p
      → Memᴰ invoice given.invoices
      → Sound e given (tolerance_step e banks p invoice)
  unfolding tolerance_step
  tolerance_step-Sound banks p invoice from h i =
      elim (Bool-cases (member invoice.invoice_id p.used_invoices)) [
        | inl used ↦ rw (used, tolerance_step) h
        | inr free ↦ elim (Option-cases (sole (filter (tolerance_candidate e p invoice) banks))) [
          | inl nobody ↦ rw (free, nobody, tolerance_step) h
          | inr (bank, found) ↦
              let known =
                sole_All _ _ bank (All-filter _ (tolerance_candidate e p invoice) banks from)
                  found in
              let (payment, off, near) =
                tolerance_candidate→IsPayment p invoice bank known.0 i known.1 in
              rw (free, found, tolerance_step)
                (settle-Sound e given p _ h (Justified.tolerance invoice bank payment off near))
        ]
      ]

  -- Phase 5.
  many_to_one_candidates-IsPayment :
      (erp : List ErpInvoice) (p : Progress) (bank : BankTransaction)
      → AreFrom given.invoices erp
      → Memᴰ bank given.banks
      → eligible bank ≡ true
      → All (λ invoice. IsPayment e given bank invoice) (many_to_one_candidates e erp p bank)
  unfolding many_to_one_candidates
  many_to_one_candidates-IsPayment erp p bank from b good =
      All-map_of _ (λ invoice. IsPayment e given bank invoice)
        (λ invoice (i, h). ground (arith, text_eq→eq invoice.currency bank.currency))
        (many_to_one_candidates e erp p bank) (All-filter _ _ erp from)

  pub many_to_one_step-Sound :
      (erp : List ErpInvoice) (p : Progress) (bank : BankTransaction)
      → AreFrom given.invoices erp
      → Sound e given p
      → Memᴰ bank given.banks
      → Sound e given (many_to_one_step e erp p bank)
  unfolding many_to_one_step
  many_to_one_step-Sound erp p bank from h b =
      elim (Bool-cases (member bank.source_record_id p.used_banks || not (eligible bank))) [
        | inl skipped ↦ rw (skipped, many_to_one_step) h
        | inr free ↦
            elim (List-cases (
              matching_combination e.config.maximum_group_size (λ invoice. invoice.amount_due)
                (many_to_one_candidates e erp p bank) bank.amount)) [
                  | inl empty ↦ rw (free, empty, many_to_one_step) h
                  | inr (a, rest, chosen) ↦
                      let (payments, small, sums) =
                        matching_combination-All (λ invoice. IsPayment e given bank invoice)
                          e.config.maximum_group_size (λ invoice. invoice.amount_due)
                          (many_to_one_candidates e erp p bank) bank.amount a rest
                          (many_to_one_candidates-IsPayment erp p bank from b (ground arith))
                          chosen in
                      rw (free, chosen, many_to_one_step)
                        (settle-Sound e given p _ h
                          (Justified.many_to_one bank (a ∷ rest) payments small sums))
                ]
      ]

  -- Phase 6.
  one_to_many_candidates-IsPayment :
      (banks : List BankTransaction) (p : Progress) (invoice : ErpInvoice)
      → AreFrom given.banks banks
      → Memᴰ invoice given.invoices
      → All (λ bank. IsPayment e given bank invoice) (one_to_many_candidates e banks p invoice)
  unfolding one_to_many_candidates
  one_to_many_candidates-IsPayment banks p invoice from i =
      All-map_of _ (λ bank. IsPayment e given bank invoice)
        (λ bank (b, h). ground (arith, text_eq→eq bank.currency invoice.currency))
        (one_to_many_candidates e banks p invoice) (All-filter _ _ banks from)

  pub one_to_many_step-Sound :
      (banks : List BankTransaction) (p : Progress) (invoice : ErpInvoice)
      → AreFrom given.banks banks
      → Sound e given p
      → Memᴰ invoice given.invoices
      → Sound e given (one_to_many_step e banks p invoice)
  unfolding one_to_many_step
  one_to_many_step-Sound banks p invoice from h i =
      elim (Bool-cases (member invoice.invoice_id p.used_invoices)) [
        | inl used ↦ rw (used, one_to_many_step) h
        | inr free ↦
            elim (List-cases (
              matching_combination e.config.maximum_group_size (λ bank. bank.amount)
                (one_to_many_candidates e banks p invoice) invoice.amount_due)) [
                  | inl empty ↦ rw (free, empty, one_to_many_step) h
                  | inr (a, rest, chosen) ↦
                      let (payments, small, sums) =
                        matching_combination-All (λ bank. IsPayment e given bank invoice)
                          e.config.maximum_group_size (λ bank. bank.amount)
                          (one_to_many_candidates e banks p invoice) invoice.amount_due a rest
                          (one_to_many_candidates-IsPayment banks p invoice from i) chosen in
                      rw (free, chosen, one_to_many_step)
                        (settle-Sound e given p _ h
                          (Justified.one_to_many invoice (a ∷ rest) payments small sums))
                ]
      ]

  -- Phases 7 and 8.
  awaiting_linked_refer :
      (erp : List ErpInvoice) (p : Progress) (remaining : List GatewaySettlementEntry)
      → AreFrom given.invoices erp
      → AreFrom given.invoices (awaiting_linked erp p remaining)
        × All
            (λ invoice. any (refers_to invoice) remaining ≡ true)
            (awaiting_linked erp p remaining)
  unfolding awaiting_linked
  awaiting_linked_refer erp p remaining from =
      let kept = All-filter _ _ erp from in
      (
        All-map_of _ (λ invoice. Memᴰ invoice given.invoices) (λ invoice h. h.0) _ kept,
        All-map_of _ (λ invoice. any (refers_to invoice) remaining ≡ true)
            (λ invoice h. let t = h.1 in ground arith) _ kept,
      )

  pub awaiting_step-Sound :
      (erp : List ErpInvoice) (p : Progress) (group : Group GatewaySettlementEntry)
      → AreFrom given.invoices erp
      → Sound e given p
      → AreFrom given.gateways (members group)
      → Sound e given (awaiting_step erp p group)
  unfolding awaiting_step
  awaiting_step-Sound erp p group from h known =
      elim (List-cases (filter (free_gateway p) (members group))) [
        | inl empty ↦ rw (empty, awaiting_step) h
        | inr (a, rest, remaining) ↦
            let kept = All-filter _ (free_gateway p) (members group) known in
            let entries =
              rw remaining at
                (All-map_of _ (λ entry. Memᴰ entry given.gateways) (λ entry x. x.0) _ kept) in
            let linked = awaiting_linked_refer erp p (a ∷ rest) from in
            rw (remaining, awaiting_step)
              (settle-Sound e given p _ h (
                Justified.awaiting a rest (awaiting_linked erp p (a ∷ rest)) entries linked.0
                  linked.1))
      ]

  pub leftover_bank_step-Sound :
      (p : Progress) (bank : BankTransaction)
      → Sound e given p
      → Memᴰ bank given.banks
      → Sound e given (leftover_bank_step p bank)
  unfolding leftover_bank_step
  leftover_bank_step-Sound p bank h b =
      elim (Bool-cases (member bank.source_record_id p.used_banks)) [
        | inl used ↦ rw (used, leftover_bank_step) h
        | inr free ↦
            rw (free, leftover_bank_step)
              (add-Sound e given p _ h (Justified.unmatched_bank bank b))
      ]

  pub leftover_invoice_step-Sound :
      (p : Progress) (invoice : ErpInvoice)
      → Sound e given p
      → Memᴰ invoice given.invoices
      → Sound e given (leftover_invoice_step p invoice)
  unfolding leftover_invoice_step
  leftover_invoice_step-Sound p invoice h i =
      elim (Bool-cases (member invoice.invoice_id p.used_invoices)) [
        | inl used ↦ rw (used, leftover_invoice_step) h
        | inr free ↦
            rw (free, leftover_invoice_step)
              (add-Sound e given p _ h (Justified.unmatched_invoice invoice i))
      ]
