-- ===== src/Reconciliation/Outcomes.antt =====
-- backend/src/reconcileflow/reconciliation/engine.py: the keyword arguments of each call of `add`,
-- with the texts that explain a result.
use reconcileflow_ai.Prelude.{true, false, none, some, List, [], ◌∷◌, ◌++◌, map, Text, codes}
use reconcileflow_ai.Prelude.Int.{ℤ, pos, abs, ◌-ℤ◌, sum}
use reconcileflow_ai.Models.{
  BankTransaction, ErpInvoice, GatewaySettlementEntry, ReconciliationStatus,
}
use reconcileflow_ai.Reconciliation.Results.{Rule, Outcome}
use reconcileflow_ai.Reconciliation.Matching.{ReconciliationEngine}
use reconcileflow_ai.Reconciliation.Grouping.{Group, members}

abbrev pub bank_ids : List BankTransaction → List Text
bank_ids = map (λ bank. bank.source_record_id)

abbrev pub invoice_ids : List ErpInvoice → List Text
invoice_ids = map (λ invoice. invoice.invoice_id)

abbrev pub gateway_ids : List GatewaySettlementEntry → List Text
gateway_ids = map (λ entry. entry.source_record_id)

unfoldable pub duplicate_outcome : Group BankTransaction → List ErpInvoice → Outcome
duplicate_outcome group linked = record {
  status = ReconciliationStatus.duplicate;
  rule = Rule.duplicate_bank_fingerprint;
  bank_source_record_ids = bank_ids (members group);
  erp_invoice_ids = invoice_ids linked;
  gateway_source_record_ids = [];
  expected_amount = some group.first.amount;
  actual_amount = some group.first.amount;
  amount_difference = some (pos 0);
  currency = group.first.currency;
  explanation =
      codes
        "Bank entries share the same transaction ID, bank reference, booking date, currency, and amount.";
  requires_review = true;
}

unfoldable pub exact_outcome : ErpInvoice → BankTransaction → Outcome
exact_outcome invoice bank = record {
  status = ReconciliationStatus.exact_match;
  rule = Rule.exact_reference_amount_currency;
  bank_source_record_ids = bank_ids (bank ∷ []);
  erp_invoice_ids = invoice_ids (invoice ∷ []);
  gateway_source_record_ids = [];
  expected_amount = some invoice.amount_due;
  actual_amount = some bank.amount;
  amount_difference = some (pos 0);
  currency = invoice.currency;
  explanation = codes "Invoice reference, currency, and amount match exactly.";
  requires_review = false;
}

-- `f"Gateway gross amount {gross} less … of {fees} equals bank payout {net}."`
settlement_text : ReconciliationEngine → ℤ → ℤ → Text
settlement_text e gross net =
    codes "Gateway gross amount "
    ++ e.show_decimal gross
    ++ codes " less fees/refunds/adjustments of "
    ++ e.show_decimal (gross -ℤ net)
    ++ codes " equals bank payout "
    ++ e.show_decimal net
    ++ codes "."

unfoldable pub settlement_outcome :
    ReconciliationEngine
    → Group GatewaySettlementEntry
    → ℤ
    → ℤ
    → List ErpInvoice
    → BankTransaction
    → Outcome
unfolding settlement_text
settlement_outcome e group gross net linked bank = record {
  status = ReconciliationStatus.settlement_match;
  rule = Rule.gateway_net_to_bank;
  bank_source_record_ids = bank_ids (bank ∷ []);
  erp_invoice_ids = invoice_ids linked;
  gateway_source_record_ids = gateway_ids (members group);
  expected_amount = some net;
  actual_amount = some bank.amount;
  amount_difference = some (abs (bank.amount -ℤ net));
  currency = group.first.settlement_currency;
  explanation = settlement_text e gross net;
  requires_review = false;
}

-- `f"…; amount difference {difference} is within tolerance {self.config.amount_tolerance}."`
tolerance_text : ReconciliationEngine → ℤ → Text
tolerance_text e difference =
    codes "Reference and currency match; amount difference "
    ++ e.show_decimal difference
    ++ codes " is within tolerance "
    ++ e.show_decimal e.config.amount_tolerance
    ++ codes "."

unfoldable pub tolerance_outcome : ReconciliationEngine → ErpInvoice → BankTransaction → Outcome
unfolding tolerance_text
tolerance_outcome e invoice bank = record {
  status = ReconciliationStatus.tolerance_match;
  rule = Rule.reference_amount_tolerance;
  bank_source_record_ids = bank_ids (bank ∷ []);
  erp_invoice_ids = invoice_ids (invoice ∷ []);
  gateway_source_record_ids = [];
  expected_amount = some invoice.amount_due;
  actual_amount = some bank.amount;
  amount_difference = some (abs (bank.amount -ℤ invoice.amount_due));
  currency = invoice.currency;
  explanation = tolerance_text e (abs (bank.amount -ℤ invoice.amount_due));
  requires_review = false;
}

unfoldable pub many_to_one_outcome : BankTransaction → List ErpInvoice → Outcome
many_to_one_outcome bank chosen = record {
  status = ReconciliationStatus.many_to_one_match;
  rule = Rule.multiple_invoices_to_bank;
  bank_source_record_ids = bank_ids (bank ∷ []);
  erp_invoice_ids = invoice_ids chosen;
  gateway_source_record_ids = [];
  expected_amount = some (sum (map (λ invoice. invoice.amount_due) chosen));
  actual_amount = some bank.amount;
  amount_difference = some (pos 0);
  currency = bank.currency;
  explanation = codes "Multiple referenced invoices total the single bank payment exactly.";
  requires_review = false;
}

unfoldable pub one_to_many_outcome : ErpInvoice → List BankTransaction → Outcome
one_to_many_outcome invoice chosen = record {
  status = ReconciliationStatus.one_to_many_match;
  rule = Rule.invoice_to_multiple_bank_payments;
  bank_source_record_ids = bank_ids chosen;
  erp_invoice_ids = invoice_ids (invoice ∷ []);
  gateway_source_record_ids = [];
  expected_amount = some invoice.amount_due;
  actual_amount = some (sum (map (λ bank. bank.amount) chosen));
  amount_difference = some (pos 0);
  currency = invoice.currency;
  explanation = codes "Multiple referenced bank payments total the invoice amount exactly.";
  requires_review = false;
}

unfoldable pub awaiting_outcome :
    GatewaySettlementEntry → List GatewaySettlementEntry → List ErpInvoice → Outcome
awaiting_outcome first rest linked = record {
  status = ReconciliationStatus.requires_review;
  rule = Rule.gateway_awaiting_bank_settlement;
  bank_source_record_ids = [];
  erp_invoice_ids = invoice_ids linked;
  gateway_source_record_ids = gateway_ids (first ∷ rest);
  expected_amount = some (sum (map (λ entry. entry.net_amount) (first ∷ rest)));
  actual_amount = none;
  amount_difference = none;
  currency = first.settlement_currency;
  explanation =
      codes
        "Gateway funds are available or paid, but no corresponding booked bank payout was found.";
  requires_review = true;
}

unfoldable pub unmatched_bank_outcome : BankTransaction → Outcome
unmatched_bank_outcome bank = record {
  status = ReconciliationStatus.requires_review;
  rule = Rule.unmatched_bank_transaction;
  bank_source_record_ids = bank_ids (bank ∷ []);
  erp_invoice_ids = [];
  gateway_source_record_ids = [];
  expected_amount = none;
  actual_amount = some bank.amount;
  amount_difference = none;
  currency = bank.currency;
  explanation = codes "No eligible invoice or gateway settlement matched this bank transaction.";
  requires_review = true;
}

unfoldable pub unmatched_invoice_outcome : ErpInvoice → Outcome
unmatched_invoice_outcome invoice = record {
  status = ReconciliationStatus.requires_review;
  rule = Rule.unmatched_erp_invoice;
  bank_source_record_ids = [];
  erp_invoice_ids = invoice_ids (invoice ∷ []);
  gateway_source_record_ids = [];
  expected_amount = some invoice.amount_due;
  actual_amount = none;
  amount_difference = none;
  currency = invoice.currency;
  explanation = codes "No eligible bank payment or gateway settlement matched this invoice.";
  requires_review = true;
}
