-- ===== src/Reconciliation/Samples.antt =====
-- Records for the tests of the engine: one currency, days near 100, and no details.
use reconcileflow_ai.Prelude.{ℕ, false, Option, none, some, List, [], ◌∷◌, Text, codes}
use reconcileflow_ai.Prelude.Int.{pos}
use reconcileflow_ai.Models.{
  BankTransaction, BankDetails, ErpInvoice, InvoiceDetails, GatewaySettlementEntry, GatewayDetails,
  CreditDebitIndicator, BankTransactionStatus, InvoiceType, InvoiceStatus, GatewayTransactionType,
  GatewayStatus,
}
use reconcileflow_ai.Reconciliation.Matching.{ReconciliationEngine}

abbrev bank_details : BankDetails
bank_details = record {
  source_system = [];
  account_id = [];
  ingested_at = 0;
  statement_id = none;
  entry_reference = none;
  account_servicer_reference = none;
  instruction_id = none;
  mandate_id = none;
  check_number = none;
  value_date = none;
  authorized_date = none;
  booking_datetime = none;
  authorized_datetime = none;
  account_currency = none;
  account_amount = none;
  exchange_rate = none;
  transaction_code = none;
  payment_channel = none;
  category = none;
  subcategory = none;
  original_description = none;
  merchant_name = none;
  merchant_category_code = none;
  counterparty_name = none;
  counterparty_account_id = none;
  counterparty_iban_masked = none;
  counterparty_bic = none;
  counterparty_country = none;
  debtor_name = none;
  creditor_name = none;
  balance_after_transaction = none;
  branch_id = none;
  location_country = none;
  location_city = none;
  is_fee = false;
  reversal_of_transaction_id = none;
}

abbrev invoice_details : InvoiceDetails
invoice_details = record {
  source_system = [];
  source_record_id = [];
  invoice_type = InvoiceType.invoice;
  status = InvoiceStatus.opened;
  supplier_id = [];
  supplier_name = [];
  customer_id = [];
  customer_name = [];
  document_subtotal = pos 0;
  document_discount_amount = pos 0;
  document_charge_amount = pos 0;
  document_tax_amount = pos 0;
  document_total_amount = pos 0;
  prepaid_amount = pos 0;
  paid_amount = pos 0;
  lines = [];
  ingested_at = 0;
  service_start_date = none;
  service_end_date = none;
  posting_date = none;
  accounting_period = none;
  tax_currency = none;
  exchange_rate = none;
  purchase_order_reference = none;
  sales_order_reference = none;
  contract_reference = none;
  project_reference = none;
  supplier_tax_id = none;
  supplier_country = none;
  customer_tax_id = none;
  customer_email = none;
  customer_country = none;
  billing_address_line1 = none;
  billing_city = none;
  billing_region = none;
  billing_postal_code = none;
  billing_country = none;
  delivery_address_line1 = none;
  delivery_city = none;
  delivery_country = none;
  payment_terms_code = none;
  payment_terms_description = none;
  payment_method = none;
  payment_account_reference = none;
  last_payment_date = none;
  notes = none;
  created_at = none;
  updated_at = none;
}

abbrev gateway_details : GatewayDetails
gateway_details = record {
  source_system = [];
  gateway_payment_id = [];
  merchant_account_id = [];
  transaction_type = GatewayTransactionType.payment;
  status = GatewayStatus.available;
  created_at = 0;
  fee_amount = pos 0;
  tax_on_fee_amount = pos 0;
  refund_amount = pos 0;
  chargeback_amount = pos 0;
  adjustment_amount = pos 0;
  ingested_at = 0;
  available_on = none;
  exchange_rate = none;
  customer_id = none;
  customer_name = none;
  order_reference = none;
  gateway_reference = none;
  payment_method_type = none;
  card_brand = none;
  card_last4 = none;
  description = none;
}

-- Text in ASCII folds to itself here, and amounts are shown by their length in units.
abbrev pub engine : ReconciliationEngine
engine = record {
  config = record { amount_tolerance = pos 100; date_tolerance_days = 14; maximum_group_size = 5 };
  casefold = λ s. s;
  show_decimal = λ amount. codes "amount";
}

abbrev pub bank : Text → Text → ℕ → ℕ → Text → BankTransaction
bank id reference day amount text = record {
  source_record_id = id;
  transaction_id = id;
  booking_date = day;
  amount = pos amount;
  currency = codes "EUR";
  credit_debit_indicator = CreditDebitIndicator.credit;
  status = BankTransactionStatus.booked;
  description = text;
  end_to_end_id = none;
  remittance_information = none;
  invoice_reference = none;
  customer_reference = none;
  bank_reference = some reference;
  is_reversal = false;
  details = bank_details;
}

abbrev pub invoice : Text → ℕ → ℕ → ErpInvoice
invoice id day due = record {
  invoice_id = id;
  invoice_number = id;
  issue_date = day;
  currency = codes "EUR";
  amount_due = pos due;
  due_date = none;
  payment_reference = none;
  details = invoice_details;
}

abbrev pub gateway : Text → Text → ℕ → ℕ → ℕ → Option Text → GatewaySettlementEntry
gateway id settlement day gross net reference = record {
  source_record_id = id;
  settlement_id = settlement;
  settlement_date = day;
  gross_amount = pos gross;
  net_amount = pos net;
  currency = codes "EUR";
  settlement_currency = codes "EUR";
  invoice_reference = reference;
  bank_reference = some settlement;
  details = gateway_details;
}

-- Two payments that name an invoice, a payout, and a transaction that nothing matches.
abbrev pub banks : List BankTransaction
banks =
    bank (codes "B1") (codes "r1") 100 500 (codes "pays I1")
    ∷ bank (codes "B2") (codes "S1") 101 900 (codes "payout")
    ∷ bank (codes "B3") (codes "r3") 99 350 (codes "I2 I3")
    ∷ bank (codes "B4") (codes "r4") 102 7 (codes "odd")
    ∷ []

abbrev pub invoices : List ErpInvoice
invoices =
    invoice (codes "I1") 98 500
    ∷ invoice (codes "I2") 98 200
    ∷ invoice (codes "I3") 97 150
    ∷ invoice (codes "I4") 97 1000
    ∷ invoice (codes "I5") 96 42
    ∷ []

abbrev pub gateways : List GatewaySettlementEntry
gateways =
    gateway (codes "G1") (codes "S1") 101 1000 900 (some (codes "I4"))
    ∷ gateway (codes "G2") (codes "S2") 101 70 60 (some (codes "none"))
    ∷ []
