-- ===== src/Reconciliation/Results.antt =====
-- backend/src/reconcileflow/reconciliation/results.py, and the names of the engine's rules.
use reconcileflow_ai.Prelude.{
  Bool, true, not, ◌&&◌, Option, none, some, List, Text, codes, is_blank,
}
use reconcileflow_ai.Prelude.Int.{ℤ, pos, leb_ℤ}
use reconcileflow_ai.Models.{ReconciliationStatus}

-- The `rule` strings, one constructor each.
pub data Rule : Type 0 where
  duplicate_bank_fingerprint exact_reference_amount_currency gateway_net_to_bank
        reference_amount_tolerance multiple_invoices_to_bank invoice_to_multiple_bank_payments
        gateway_awaiting_bank_settlement unmatched_bank_transaction unmatched_erp_invoice :
      Rule

unfoldable pub rule_text : Rule → Text
rule_text duplicate_bank_fingerprint = codes "DUPLICATE_BANK_FINGERPRINT"
rule_text exact_reference_amount_currency = codes "EXACT_REFERENCE_AMOUNT_CURRENCY"
rule_text gateway_net_to_bank = codes "GATEWAY_NET_TO_BANK"
rule_text reference_amount_tolerance = codes "REFERENCE_AMOUNT_TOLERANCE"
rule_text multiple_invoices_to_bank = codes "MULTIPLE_INVOICES_TO_BANK"
rule_text invoice_to_multiple_bank_payments = codes "INVOICE_TO_MULTIPLE_BANK_PAYMENTS"
rule_text gateway_awaiting_bank_settlement = codes "GATEWAY_AWAITING_BANK_SETTLEMENT"
rule_text unmatched_bank_transaction = codes "UNMATCHED_BANK_TRANSACTION"
rule_text unmatched_erp_invoice = codes "UNMATCHED_ERP_INVOICE"

-- What a rule states of a result: every field but the number that `add` gives it.
pub record Outcome : Type 0 where
  pub status : ReconciliationStatus
  pub rule : Rule
  pub bank_source_record_ids : List Text
  pub erp_invoice_ids : List Text
  pub gateway_source_record_ids : List Text
  pub expected_amount : Option ℤ
  pub actual_amount : Option ℤ
  pub amount_difference : Option ℤ
  pub currency : Text
  pub explanation : Text
  pub requires_review : Bool

pub record ReconciliationResult : Type 0 where
  pub result_id : Text
  pub outcome : Outcome
  pub open outcome use *

difference_ok : Option ℤ → Bool
difference_ok none = true
difference_ok (some d) = leb_ℤ (pos 0) d

-- `__post_init__` raises unless this holds.
unfoldable pub accepts : ReconciliationResult → Bool
unfolding difference_ok
accepts r =
    not (is_blank r.result_id)
    && not (is_blank (rule_text r.rule))
    && not (is_blank r.explanation)
    && difference_ok r.amount_difference
