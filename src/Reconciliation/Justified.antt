-- ===== src/Reconciliation/Justified.antt =====
-- What every kind of result rests on, written out from the rules' names and explanations: records
-- that `reconcile` was given, and what holds of them.
use mathlib.Core.List.{Memᴰ}
use reconcileflow_ai.Prelude.{◌≤◌, ◌≡◌, true, List, ◌∷◌, map, length, All, any}
use reconcileflow_ai.Prelude.Int.{pos, abs, ◌-ℤ◌, ◌≤ℤ◌, sum}
use reconcileflow_ai.Models.{BankTransaction, ErpInvoice, GatewaySettlementEntry}
use reconcileflow_ai.Reconciliation.Results.{Outcome}
use reconcileflow_ai.Reconciliation.Matching.{ReconciliationEngine, mentions, eligible, within_days}
use reconcileflow_ai.Reconciliation.Grouping.{Group, members, same_fingerprint, same_settlement}
use reconcileflow_ai.Reconciliation.Outcomes.{
  duplicate_outcome, exact_outcome, settlement_outcome, tolerance_outcome, many_to_one_outcome,
  one_to_many_outcome, awaiting_outcome, unmatched_bank_outcome, unmatched_invoice_outcome,
}
use reconcileflow_ai.Reconciliation.Phases.{near, net_of, gross_of, pays_into, refers_to}

-- What `reconcile` is given.
pub record Given : Type 0 where
  pub banks : List BankTransaction
  pub invoices : List ErpInvoice
  pub gateways : List GatewaySettlementEntry

-- Every element of a list stands in another.
abbrev pub AreFrom {ℓ} : {A : Type ℓ} → List A → List A → Type ℓ
AreFrom source xs = All (λ x. Memᴰ x source) xs

-- A given bank transaction and a given invoice: a booked credit that is no reversal, in the invoice's currency, which names the invoice near its
-- date.
pub record IsPayment (e : ReconciliationEngine) (given : Given) (bank : BankTransaction)
    (invoice : ErpInvoice) : Type 0 where
  pub bank_given : Memᴰ bank given.banks
  pub invoice_given : Memᴰ invoice given.invoices
  pub is_eligible : eligible bank ≡ true
  pub same_currency : bank.currency ≡ invoice.currency
  pub names_it : mentions e bank invoice ≡ true
  pub in_time : within_days bank invoice e.config.date_tolerance_days ≡ true

-- A group of more than one and at most the maximum.
abbrev pub IsSmallGroup {ℓ} : {A : Type ℓ} → ReconciliationEngine → List A → Type 0
IsSmallGroup e group = (2 ≤ length group) × (length group ≤ e.config.maximum_group_size)

-- A given bank transaction that pays out a settlement of given entries.
pub record IsPayout (e : ReconciliationEngine) (given : Given) (bank : BankTransaction)
    (group : Group GatewaySettlementEntry) : Type 0 where
  pub bank_given : Memᴰ bank given.banks
  pub entries_given : AreFrom given.gateways (members group)
  pub is_eligible : eligible bank ≡ true
  pub same_currency : bank.currency ≡ group.first.settlement_currency
  pub net_amount : bank.amount ≡ net_of (members group)
  pub one_settlement : All (λ entry. same_settlement group.first entry ≡ true) group.rest
  pub names_it : any (pays_into e bank) (members group) ≡ true

-- A given invoice that the settlement's gross amount covers.
pub record IsCovered (given : Given) (group : Group GatewaySettlementEntry) (invoice : ErpInvoice)
    : Type 0 where
  pub invoice_given : Memᴰ invoice given.invoices
  pub same_currency : invoice.currency ≡ group.first.currency
  pub gross_amount : invoice.amount_due ≡ gross_of (members group)
  pub named : any (refers_to invoice) (members group) ≡ true

-- An outcome with its evidence.
pub data Justified (e : ReconciliationEngine) (given : Given) : Outcome → Type 0 where
  duplicate :
      (group : Group BankTransaction) (linked : List ErpInvoice)
      → AreFrom given.banks (members group)
      → 2 ≤ length (members group)
      → All (λ bank. same_fingerprint group.first bank ≡ true) group.rest
      → AreFrom given.invoices linked
      → All (λ invoice. any (λ bank. near e bank invoice) (members group) ≡ true) linked
      → Justified e given (duplicate_outcome group linked)
  exact :
      (invoice : ErpInvoice) (bank : BankTransaction)
      → IsPayment e given bank invoice
      → bank.amount ≡ invoice.amount_due
      → Justified e given (exact_outcome invoice bank)
  payout :
      (group : Group GatewaySettlementEntry) (linked : List ErpInvoice) (bank : BankTransaction)
      → IsPayout e given bank group
      → All (IsCovered given group) linked
      → Justified e given (
          settlement_outcome e group
            (gross_of (members group))
            (net_of (members group))
            linked
            bank)
  tolerance :
      (invoice : ErpInvoice) (bank : BankTransaction)
      → IsPayment e given bank invoice
      → ¬ (abs (bank.amount -ℤ invoice.amount_due) ≤ℤ pos 0)
      → abs (bank.amount -ℤ invoice.amount_due) ≤ℤ e.config.amount_tolerance
      → Justified e given (tolerance_outcome e invoice bank)
  many_to_one :
      (bank : BankTransaction) (chosen : List ErpInvoice)
      → All (λ invoice. IsPayment e given bank invoice) chosen
      → IsSmallGroup e chosen
      → sum (map (λ invoice. invoice.amount_due) chosen) ≡ bank.amount
      → Justified e given (many_to_one_outcome bank chosen)
  one_to_many :
      (invoice : ErpInvoice) (chosen : List BankTransaction)
      → All (λ bank. IsPayment e given bank invoice) chosen
      → IsSmallGroup e chosen
      → sum (map (λ bank. bank.amount) chosen) ≡ invoice.amount_due
      → Justified e given (one_to_many_outcome invoice chosen)
  awaiting :
      (first : GatewaySettlementEntry) (rest : List GatewaySettlementEntry)
      (linked : List ErpInvoice)
      → AreFrom given.gateways (first ∷ rest)
      → AreFrom given.invoices linked
      → All (λ invoice. any (refers_to invoice) (first ∷ rest) ≡ true) linked
      → Justified e given (awaiting_outcome first rest linked)
  unmatched_bank :
      (bank : BankTransaction)
      → Memᴰ bank given.banks
      → Justified e given (unmatched_bank_outcome bank)
  unmatched_invoice :
      (invoice : ErpInvoice)
      → Memᴰ invoice given.invoices
      → Justified e given (unmatched_invoice_outcome invoice)
