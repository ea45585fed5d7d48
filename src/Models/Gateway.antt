-- ===== src/Models/Gateway.antt =====
-- backend/src/reconcileflow/models/gateway.py: the fields that reconciliation reads stand in the record
-- itself, the others in its details.
use reconcileflow_ai.Prelude.{ℕ, Option, Text}
use reconcileflow_ai.Prelude.Int.{ℤ}
use reconcileflow_ai.Models.Enums.{GatewayTransactionType, GatewayStatus}

pub record GatewayDetails : Type 0 where
  pub source_system : Text
  pub gateway_payment_id : Text
  pub merchant_account_id : Text
  pub transaction_type : GatewayTransactionType
  pub status : GatewayStatus
  pub created_at : ℕ
  pub fee_amount : ℤ
  pub tax_on_fee_amount : ℤ
  pub refund_amount : ℤ
  pub chargeback_amount : ℤ
  pub adjustment_amount : ℤ
  pub ingested_at : ℕ
  pub available_on : Option ℕ
  pub exchange_rate : Option ℤ
  pub customer_id : Option Text
  pub customer_name : Option Text
  pub order_reference : Option Text
  pub gateway_reference : Option Text
  pub payment_method_type : Option Text
  pub card_brand : Option Text
  pub card_last4 : Option Text
  pub description : Option Text

pub record GatewaySettlementEntry : Type 0 where
  pub source_record_id : Text
  pub settlement_id : Text
  pub settlement_date : ℕ
  pub gross_amount : ℤ
  pub net_amount : ℤ
  pub currency : Text
  pub settlement_currency : Text
  pub invoice_reference : Option Text
  pub bank_reference : Option Text
  pub details : GatewayDetails
  pub open details use *
