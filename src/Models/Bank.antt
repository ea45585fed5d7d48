-- ===== src/Models/Bank.antt =====
-- backend/src/reconcileflow/models/bank.py: the fields that reconciliation reads stand in the record
-- itself, the others in its details.
use reconcileflow_ai.Prelude.{ℕ, Bool, Option, Text}
use reconcileflow_ai.Prelude.Int.{ℤ}
use reconcileflow_ai.Models.Enums.{CreditDebitIndicator, BankTransactionStatus}

pub record BankDetails : Type 0 where
  pub source_system : Text
  pub account_id : Text
  pub ingested_at : ℕ
  pub statement_id : Option Text
  pub entry_reference : Option Text
  pub account_servicer_reference : Option Text
  pub instruction_id : Option Text
  pub mandate_id : Option Text
  pub check_number : Option Text
  pub value_date : Option ℕ
  pub authorized_date : Option ℕ
  pub booking_datetime : Option ℕ
  pub authorized_datetime : Option ℕ
  pub account_currency : Option Text
  pub account_amount : Option ℤ
  pub exchange_rate : Option ℤ
  pub transaction_code : Option Text
  pub payment_channel : Option Text
  pub category : Option Text
  pub subcategory : Option Text
  pub original_description : Option Text
  pub merchant_name : Option Text
  pub merchant_category_code : Option Text
  pub counterparty_name : Option Text
  pub counterparty_account_id : Option Text
  pub counterparty_iban_masked : Option Text
  pub counterparty_bic : Option Text
  pub counterparty_country : Option Text
  pub debtor_name : Option Text
  pub creditor_name : Option Text
  pub balance_after_transaction : Option ℤ
  pub branch_id : Option Text
  pub location_country : Option Text
  pub location_city : Option Text
  pub is_fee : Bool
  pub reversal_of_transaction_id : Option Text

pub record BankTransaction : Type 0 where
  pub source_record_id : Text
  pub transaction_id : Text
  pub booking_date : ℕ
  pub amount : ℤ
  pub currency : Text
  pub credit_debit_indicator : CreditDebitIndicator
  pub status : BankTransactionStatus
  pub description : Text
  pub end_to_end_id : Option Text
  pub remittance_information : Option Text
  pub invoice_reference : Option Text
  pub customer_reference : Option Text
  pub bank_reference : Option Text
  pub is_reversal : Bool
  pub details : BankDetails
  pub open details use *
