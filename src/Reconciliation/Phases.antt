-- ===== src/Reconciliation/Phases.antt =====
-- backend/src/reconcileflow/reconciliation/engine.py: the loop bodies of `reconcile`, in its order.
use reconcileflow_ai.Prelude.{
  Bool, false, not, ◌&&◌, ◌||◌, none, some, List, [], ◌∷◌, map, if◌then◌else◌, ltb, leb, length,
  filter, any, text_eq,
}
use reconcileflow_ai.Prelude.Int.{ℤ, pos, abs, ◌-ℤ◌, eq_ℤ, leb_ℤ, ltb_ℤ, sum}
use reconcileflow_ai.Prelude.Count.{member}
use reconcileflow_ai.Models.{BankTransaction, ErpInvoice, GatewaySettlementEntry}
use reconcileflow_ai.Reconciliation.Matching.{
  ReconciliationEngine, mentions, eligible, within_days, days_between, option_eq, sole,
  matching_combination,
}
use reconcileflow_ai.Reconciliation.Grouping.{Group, members}
use reconcileflow_ai.Reconciliation.Progress.{Progress, add, settle}
use reconcileflow_ai.Reconciliation.Outcomes.{
  duplicate_outcome, exact_outcome, settlement_outcome, tolerance_outcome, many_to_one_outcome,
  one_to_many_outcome, awaiting_outcome, unmatched_bank_outcome, unmatched_invoice_outcome,
}

abbrev pub free_bank : Progress → BankTransaction → Bool
free_bank p bank = not (member bank.source_record_id p.used_banks)

abbrev pub free_invoice : Progress → ErpInvoice → Bool
free_invoice p invoice = not (member invoice.invoice_id p.used_invoices)

abbrev pub free_gateway : Progress → GatewaySettlementEntry → Bool
free_gateway p entry = not (member entry.source_record_id p.used_gateways)

abbrev pub near : ReconciliationEngine → BankTransaction → ErpInvoice → Bool
near e bank invoice =
    mentions e bank invoice && within_days bank invoice e.config.date_tolerance_days

-- 1. Duplicates are quarantined, with the invoices that one of them mentions.
unfoldable pub duplicate_linked :
    ReconciliationEngine → List ErpInvoice → Progress → Group BankTransaction → List ErpInvoice
duplicate_linked e erp p group =
    filter (λ invoice. free_invoice p invoice && any (λ bank. near e bank invoice) (members group))
      erp

unfoldable pub duplicate_step :
    ReconciliationEngine → List ErpInvoice → Progress → Group BankTransaction → Progress
unfolding duplicate_linked
duplicate_step e erp p group =
    if ltb (length (members group)) 2
    then p
    else settle p (duplicate_outcome group (duplicate_linked e erp p group))

-- 2. Exact invoice-to-bank matches.
unfoldable pub exact_candidate :
    ReconciliationEngine → Progress → ErpInvoice → BankTransaction → Bool
exact_candidate e p invoice bank =
    free_bank p bank
    && eligible bank
    && text_eq bank.currency invoice.currency
    && eq_ℤ bank.amount invoice.amount_due
    && near e bank invoice

unfoldable pub exact_step :
    ReconciliationEngine → List BankTransaction → Progress → ErpInvoice → Progress
unfolding exact_candidate
exact_step e banks p invoice =
    if member invoice.invoice_id p.used_invoices
    then p
    else elim (sole (filter (exact_candidate e p invoice) banks)) [
      | none ↦ p
      | some bank ↦ settle p (exact_outcome invoice bank)
    ]

-- 3. Gateway net payouts.
abbrev pub net_of : List GatewaySettlementEntry → ℤ
net_of entries = sum (map (λ entry. entry.net_amount) entries)

abbrev pub gross_of : List GatewaySettlementEntry → ℤ
gross_of entries = sum (map (λ entry. entry.gross_amount) entries)

-- `entry.bank_reference and entry.bank_reference == bank.bank_reference and …`
unfoldable pub pays_into : ReconciliationEngine → BankTransaction → GatewaySettlementEntry → Bool
pays_into e bank entry = elim entry.bank_reference [
  | none ↦ false
  | some reference ↦
      not (text_eq reference [])
      && option_eq (some reference) bank.bank_reference
      && leb (days_between bank.booking_date entry.settlement_date) e.config.date_tolerance_days
]

-- `entry.invoice_reference in {invoice.invoice_id, invoice.invoice_number, invoice.payment_reference}`
unfoldable pub refers_to : ErpInvoice → GatewaySettlementEntry → Bool
refers_to invoice entry =
    option_eq entry.invoice_reference (some invoice.invoice_id)
    || option_eq entry.invoice_reference (some invoice.invoice_number)
    || option_eq entry.invoice_reference invoice.payment_reference

unfoldable pub payout_candidate :
    ReconciliationEngine → Progress → Group GatewaySettlementEntry → BankTransaction → Bool
unfolding pays_into
payout_candidate e p group bank =
    free_bank p bank
    && eligible bank
    && text_eq bank.currency group.first.settlement_currency
    && eq_ℤ bank.amount (net_of (members group))
    && any (pays_into e bank) (members group)

unfoldable pub settlement_linked :
    List ErpInvoice → Progress → Group GatewaySettlementEntry → List ErpInvoice
unfolding refers_to
settlement_linked erp p group =
    filter
      (λ invoice.
        free_invoice p invoice
        && text_eq invoice.currency group.first.currency
        && eq_ℤ invoice.amount_due (gross_of (members group))
        && any (refers_to invoice) (members group))
      erp

unfoldable pub settlement_step :
    ReconciliationEngine
    → List BankTransaction
    → List ErpInvoice
    → Progress
    → Group GatewaySettlementEntry
    → Progress
unfolding payout_candidate settlement_linked
settlement_step e banks erp p group = elim (sole (filter (payout_candidate e p group) banks)) [
  | none ↦ p
  | some bank ↦ settle p (
      settlement_outcome e group (gross_of (members group)) (net_of (members group))
        (settlement_linked erp p group) bank)
]

-- 4. Referenced payments inside the configured tolerance.
unfoldable pub tolerance_candidate :
    ReconciliationEngine → Progress → ErpInvoice → BankTransaction → Bool
tolerance_candidate e p invoice bank =
    let difference = abs (bank.amount -ℤ invoice.amount_due) in
    free_bank p bank
    && eligible bank
    && text_eq bank.currency invoice.currency
    && (ltb_ℤ (pos 0) difference && leb_ℤ difference e.config.amount_tolerance)
    && near e bank invoice

unfoldable pub tolerance_step :
    ReconciliationEngine → List BankTransaction → Progress → ErpInvoice → Progress
unfolding tolerance_candidate
tolerance_step e banks p invoice =
    if member invoice.invoice_id p.used_invoices
    then p
    else elim (sole (filter (tolerance_candidate e p invoice) banks)) [
      | none ↦ p
      | some bank ↦ settle p (tolerance_outcome e invoice bank)
    ]

-- 5. Several invoices paid by one bank entry.
unfoldable pub many_to_one_candidates :
    ReconciliationEngine → List ErpInvoice → Progress → BankTransaction → List ErpInvoice
many_to_one_candidates e erp p bank =
    filter
      (λ invoice.
        free_invoice p invoice && text_eq invoice.currency bank.currency && near e bank invoice)
      erp

unfoldable pub many_to_one_step :
    ReconciliationEngine → List ErpInvoice → Progress → BankTransaction → Progress
unfolding many_to_one_candidates
many_to_one_step e erp p bank =
    if member bank.source_record_id p.used_banks || not (eligible bank)
    then p
    else elim (matching_combination e.config.maximum_group_size (λ invoice. invoice.amount_due)
        (many_to_one_candidates e erp p bank) bank.amount) [
          | [] ↦ p
          | invoice ∷ invoices ↦ settle p (many_to_one_outcome bank (invoice ∷ invoices))
        ]

-- 6. One invoice paid by several bank entries.
unfoldable pub one_to_many_candidates :
    ReconciliationEngine → List BankTransaction → Progress → ErpInvoice → List BankTransaction
one_to_many_candidates e banks p invoice =
    filter
      (λ bank.
        free_bank p bank
        && eligible bank
        && text_eq bank.currency invoice.currency
        && near e bank invoice)
      banks

unfoldable pub one_to_many_step :
    ReconciliationEngine → List BankTransaction → Progress → ErpInvoice → Progress
unfolding one_to_many_candidates
one_to_many_step e banks p invoice =
    if member invoice.invoice_id p.used_invoices
    then p
    else elim (matching_combination e.config.maximum_group_size (λ bank. bank.amount)
        (one_to_many_candidates e banks p invoice) invoice.amount_due) [
          | [] ↦ p
          | bank ∷ banks ↦ settle p (one_to_many_outcome invoice (bank ∷ banks))
        ]

-- 7. Gateway funds without a booked bank payout.
unfoldable pub awaiting_linked :
    List ErpInvoice → Progress → List GatewaySettlementEntry → List ErpInvoice
unfolding refers_to
awaiting_linked erp p remaining =
    filter (λ invoice. free_invoice p invoice && any (refers_to invoice) remaining) erp

unfoldable pub awaiting_step : List ErpInvoice → Progress → Group GatewaySettlementEntry → Progress
unfolding awaiting_linked
awaiting_step erp p group = elim (filter (free_gateway p) (members group)) [
  | [] ↦ p
  | entry ∷ entries ↦
      settle p (awaiting_outcome entry entries (awaiting_linked erp p (entry ∷ entries)))
]

-- 8. What is left. The sets stay as they are.
unfoldable pub leftover_bank_step : Progress → BankTransaction → Progress
leftover_bank_step p bank =
    if member bank.source_record_id p.used_banks then p else add p (unmatched_bank_outcome bank)

unfoldable pub leftover_invoice_step : Progress → ErpInvoice → Progress
leftover_invoice_step p invoice =
    if member invoice.invoice_id p.used_invoices
    then p
    else add p (unmatched_invoice_outcome invoice)
