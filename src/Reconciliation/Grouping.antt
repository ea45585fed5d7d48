-- ===== src/Reconciliation/Grouping.antt =====
-- backend/src/reconcileflow/reconciliation/engine.py: `defaultdict(list)` keyed by the fingerprint of
-- a bank transaction or by a settlement. A dict keeps its keys in the order of insertion.
use reconcileflow_ai.Prelude.{
  Bool, ◌&&◌, ◌||◌, List, [], ◌∷◌, ◌++◌, ltb, ◌==◌, if◌then◌else◌, text_eq, text_leb,
}
use reconcileflow_ai.Prelude.Int.{eq_ℤ}
use reconcileflow_ai.Models.{BankTransaction, ErpInvoice, GatewaySettlementEntry}
use reconcileflow_ai.Reconciliation.Matching.{option_eq}

-- The values under one key: never empty, and the first stands for the key.
pub record Group {ℓ} (A : Type ℓ) : Type ℓ where
  pub first : A
  pub rest : List A

module _ {ℓ} {A : Type ℓ} where
  abbrev pub members : Group A → List A
  members g = g.first ∷ g.rest

  -- `groups[key(x)].append(x)`
  unfoldable pub insert_group : (A → A → Bool) → A → List (Group A) → List (Group A)
  insert_group same x [] = record { first = x; rest = [] } ∷ []
  insert_group same x (g ∷ gs) =
      let others = insert_group same x gs in
      if same g.first x then record g { rest = g.rest ++ x ∷ [] } ∷ gs else g ∷ others

  unfoldable pub group_from : (A → A → Bool) → List (Group A) → List A → List (Group A)
  unfolding insert_group
  group_from same gs [] = gs
  group_from same gs (x ∷ xs) = group_from same (insert_group same x gs) xs

  unfoldable pub group_by : (A → A → Bool) → List A → List (Group A)
  unfolding group_from
  group_by same xs = group_from same [] xs

unfoldable pub same_fingerprint : BankTransaction → BankTransaction → Bool
same_fingerprint a b =
    text_eq a.transaction_id b.transaction_id
    && option_eq a.bank_reference b.bank_reference
    && a.booking_date == b.booking_date
    && text_eq a.currency b.currency
    && eq_ℤ a.amount b.amount

unfoldable pub same_settlement : GatewaySettlementEntry → GatewaySettlementEntry → Bool
same_settlement a b = text_eq a.settlement_id b.settlement_id

-- The sort keys of the engine.
unfoldable pub bank_leb : BankTransaction → BankTransaction → Bool
bank_leb a b =
    ltb a.booking_date b.booking_date
    || (a.booking_date == b.booking_date && text_leb a.source_record_id b.source_record_id)

unfoldable pub invoice_leb : ErpInvoice → ErpInvoice → Bool
invoice_leb a b =
    ltb a.issue_date b.issue_date
    || (a.issue_date == b.issue_date && text_leb a.invoice_id b.invoice_id)

unfoldable pub gateway_leb : GatewaySettlementEntry → GatewaySettlementEntry → Bool
gateway_leb a b =
    ltb a.settlement_date b.settlement_date
    || (a.settlement_date == b.settlement_date && text_leb a.source_record_id b.source_record_id)

unfoldable pub duplicate_leb : Group BankTransaction → Group BankTransaction → Bool
duplicate_leb g h = text_leb g.first.source_record_id h.first.source_record_id

unfoldable pub settlement_leb : Group GatewaySettlementEntry → Group GatewaySettlementEntry → Bool
settlement_leb g h = text_leb g.first.settlement_id h.first.settlement_id
