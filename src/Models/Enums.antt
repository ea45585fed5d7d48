-- ===== src/Models/Enums.antt =====
-- backend/src/reconcileflow/models/enums.py: the controlled vocabulary.
pub data CreditDebitIndicator : Type 0 where
  credit debit : CreditDebitIndicator

pub data BankTransactionStatus : Type 0 where
  booked pending reversed cancelled : BankTransactionStatus

pub data InvoiceType : Type 0 where
  invoice credit_note debit_note proforma : InvoiceType

pub data InvoiceStatus : Type 0 where
  draft opened partially_paid paid void overdue : InvoiceStatus

pub data GatewayTransactionType : Type 0 where
  payment refund chargeback fee adjustment reserve : GatewayTransactionType

pub data GatewayStatus : Type 0 where
  pending available paid failed reversed : GatewayStatus

pub data ReconciliationStatus : Type 0 where
  exact_match settlement_match tolerance_match many_to_one_match one_to_many_match duplicate
        requires_review :
      ReconciliationStatus
