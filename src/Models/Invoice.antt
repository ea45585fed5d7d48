-- ===== src/Models/Invoice.antt =====
-- backend/src/reconcileflow/models/invoice.py: the fields that reconciliation reads stand in the record
-- itself, the others in its details.
use reconcileflow_ai.Prelude.{ℕ, List, Option, Text}
use reconcileflow_ai.Prelude.Int.{ℤ}
use reconcileflow_ai.Models.Enums.{InvoiceType, InvoiceStatus}

pub record InvoiceLine : Type 0 where
  pub line_id : Text
  pub line_number : ℕ
  pub item_description : Text
  pub quantity : ℤ
  pub unit_price : ℤ
  pub line_net_amount : ℤ
  pub tax_rate : ℤ
  pub tax_amount : ℤ
  pub line_gross_amount : ℤ
  pub item_id : Option Text
  pub unit_code : Option Text
  pub line_discount_amount : ℤ
  pub line_charge_amount : ℤ
  pub tax_category : Option Text

pub record InvoiceDetails : Type 0 where
  pub source_system : Text
  pub source_record_id : Text
  pub invoice_type : InvoiceType
  pub status : InvoiceStatus
  pub supplier_id : Text
  pub supplier_name : Text
  pub customer_id : Text
  pub customer_name : Text
  pub document_subtotal : ℤ
  pub document_discount_amount : ℤ
  pub document_charge_amount : ℤ
  pub document_tax_amount : ℤ
  pub document_total_amount : ℤ
  pub prepaid_amount : ℤ
  pub paid_amount : ℤ
  pub lines : List InvoiceLine
  pub ingested_at : ℕ
  pub service_start_date : Option ℕ
  pub service_end_date : Option ℕ
  pub posting_date : Option ℕ
  pub accounting_period : Option Text
  pub tax_currency : Option Text
  pub exchange_rate : Option ℤ
  pub purchase_order_reference : Option Text
  pub sales_order_reference : Option Text
  pub contract_reference : Option Text
  pub project_reference : Option Text
  pub supplier_tax_id : Option Text
  pub supplier_country : Option Text
  pub customer_tax_id : Option Text
  pub customer_email : Option Text
  pub customer_country : Option Text
  pub billing_address_line1 : Option Text
  pub billing_city : Option Text
  pub billing_region : Option Text
  pub billing_postal_code : Option Text
  pub billing_country : Option Text
  pub delivery_address_line1 : Option Text
  pub delivery_city : Option Text
  pub delivery_country : Option Text
  pub payment_terms_code : Option Text
  pub payment_terms_description : Option Text
  pub payment_method : Option Text
  pub payment_account_reference : Option Text
  pub last_payment_date : Option ℕ
  pub notes : Option Text
  pub created_at : Option ℕ
  pub updated_at : Option ℕ

pub record ErpInvoice : Type 0 where
  pub invoice_id : Text
  pub invoice_number : Text
  pub issue_date : ℕ
  pub currency : Text
  pub amount_due : ℤ
  pub due_date : Option ℕ
  pub payment_reference : Option Text
  pub details : InvoiceDetails
  pub open details use *
