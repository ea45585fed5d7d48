-- ===== src/Reconciliation/Matching.antt =====
-- backend/src/reconcileflow/reconciliation/engine.py: the tests on one bank transaction and one
-- invoice, and the search for a combination that sums to a target.
use reconcileflow_ai.Prelude.{
  ℕ, zero, suc, ◌+◌, ◌-◌, Bool, true, false, not, ◌&&◌, Option, none, some, List, [], ◌∷◌, ◌++◌,
  map, leb, or_else, length, filter, any, Text, text_eq, contains,
}
use reconcileflow_ai.Prelude.Int.{ℤ, eq_ℤ, sum}
use Prim.Native.Nat.{min}
use reconcileflow_ai.Models.{
  BankTransaction, ErpInvoice, BankTransactionStatus, CreditDebitIndicator,
}
use reconcileflow_ai.Reconciliation.Config.{ReconciliationConfig}

-- The engine with what it takes of Python's library: Unicode case folding, and a Decimal's text.
pub record ReconciliationEngine : Type 0 where
  pub config : ReconciliationConfig
  pub casefold : Text → Text
  pub show_decimal : ℤ → Text

-- `{value for value in values if value}`: neither `None` nor the empty text.
unfoldable pub truthy : List (Option Text) → List Text
truthy [] = []
truthy (none ∷ rest) = truthy rest
truthy (some [] ∷ rest) = truthy rest
truthy (some (c ∷ s) ∷ rest) = (c ∷ s) ∷ truthy rest

unfoldable pub references : ReconciliationEngine → BankTransaction → List Text
unfolding truthy
references e bank = map e.casefold (
    truthy (
      bank.invoice_reference
      ∷ bank.customer_reference
      ∷ bank.end_to_end_id
      ∷ bank.remittance_information
      ∷ some bank.description
      ∷ []))

unfoldable pub needles : ReconciliationEngine → ErpInvoice → List Text
unfolding truthy
needles e invoice =
    e.casefold invoice.invoice_id
    ∷ e.casefold invoice.invoice_number
    ∷ map e.casefold (truthy (invoice.payment_reference ∷ []))

unfoldable pub mentions : ReconciliationEngine → BankTransaction → ErpInvoice → Bool
unfolding references needles
mentions e bank invoice =
    any (λ needle. any (λ reference. contains needle reference) (references e bank))
      (needles e invoice)

is_booked : BankTransactionStatus → Bool
is_booked BankTransactionStatus.booked = true
is_booked _ = false

is_credit : CreditDebitIndicator → Bool
is_credit CreditDebitIndicator.credit = true
is_credit CreditDebitIndicator.debit = false

unfoldable pub eligible : BankTransaction → Bool
unfolding is_booked is_credit
eligible bank =
    is_booked bank.status && is_credit bank.credit_debit_indicator && not bank.is_reversal

-- `abs((a - b).days)`
abbrev pub days_between : ℕ → ℕ → ℕ
days_between a b = (a - b) + (b - a)

unfoldable pub within_days : BankTransaction → ErpInvoice → ℕ → Bool
within_days bank invoice days =
    leb (days_between bank.booking_date (or_else invoice.due_date invoice.issue_date)) days

-- Equality of optional texts: `None == None` holds.
unfoldable pub option_eq : Option Text → Option Text → Bool
option_eq none none = true
option_eq none (some t) = false
option_eq (some s) none = false
option_eq (some s) (some t) = text_eq s t

module _ {ℓ} {A : Type ℓ} where
  -- `candidates[0]` where `len(candidates) == 1`
  unfoldable pub sole : List A → Option A
  sole [] = none
  sole (x ∷ []) = some x
  sole (x ∷ y ∷ xs) = none

module _ {ℓ} {A : Type ℓ} where
  -- `itertools.combinations(xs, size)`, in its order.
  unfoldable pub combinations : ℕ → List A → List (List A)
  combinations zero xs = [] ∷ []
  combinations (suc size) [] = []
  combinations (suc size) (x ∷ xs) =
      map (λ group. x ∷ group) (combinations size xs) ++ combinations (suc size) xs

  -- The groups of one size whose amounts sum to the target.
  unfoldable pub matches : (A → ℤ) → List A → ℤ → ℕ → List (List A)
  unfolding combinations
  matches amount items target size =
      filter (λ group. eq_ℤ (sum (map amount group)) target) (combinations size items)

  -- The sizes from `size` on, as many as there are rounds: the first with a single match wins.
  unfoldable pub matching_from : ℕ → ℕ → (A → ℤ) → List A → ℤ → List A
  unfolding matches sole
  matching_from zero size amount items target = []
  matching_from (suc rounds) size amount items target =
      elim (sole (matches amount items target size)) [
        | some group ↦ group
        | none ↦ matching_from rounds (suc size) amount items target
      ]

  -- `range(2, min(len(items), maximum_group_size) + 1)`
  unfoldable pub matching_combination : ℕ → (A → ℤ) → List A → ℤ → List A
  unfolding matching_from
  matching_combination maximum amount items target =
      matching_from (min (length items) maximum + 1 - 2) 2 amount items target
