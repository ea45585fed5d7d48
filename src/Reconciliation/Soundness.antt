-- ===== src/Reconciliation/Soundness.antt =====
-- What the results of `reconcile` rest on, and the amounts of those that need no review.

use reconcileflow_ai.Prelude.{
  ◌≡◌, refl, sym, ap, map, subst, ◌⊎◌, inl, inr, true, false, some, List, All, arith, Bool-cases,
}
use reconcileflow_ai.Prelude.Int.{ℤ, pos, abs, ◌-ℤ◌, ◌≤ℤ◌, -ℤ_parts, sum}
use reconcileflow_ai.Prelude.Sorting.{sort}
use reconcileflow_ai.Prelude.Members.{All-map_of}
use reconcileflow_ai.Models.{BankTransaction, ErpInvoice, GatewaySettlementEntry}
use reconcileflow_ai.Reconciliation.Results.{Outcome, accepts, ReconciliationResult}
use reconcileflow_ai.Reconciliation.Matching.{ReconciliationEngine}
use reconcileflow_ai.Reconciliation.Grouping.{members, bank_leb, invoice_leb, gateway_leb}
use reconcileflow_ai.Reconciliation.Outcomes.{
  duplicate_outcome, exact_outcome, settlement_outcome, tolerance_outcome, many_to_one_outcome,
  one_to_many_outcome, awaiting_outcome, unmatched_bank_outcome, unmatched_invoice_outcome,
}
use reconcileflow_ai.Reconciliation.Phases.{net_of}
use reconcileflow_ai.Reconciliation.Engine.{finished, ok, reconcile, reconcile_sorted}
use reconcileflow_ai.Reconciliation.Justified.{Given, Justified}
use reconcileflow_ai.Reconciliation.SoundLoops.{finished-Sound, sort-AreFrom}

-- The expected and the actual amount are there, and differ by what the result says.
abbrev pub Balances : ℤ → Outcome → Type 0
Balances tolerance o =
    (expected : ℤ) × (actual : ℤ) × (o.expected_amount ≡ some expected)
    × (o.actual_amount ≡ some actual)
    × (o.amount_difference ≡ some (abs (actual -ℤ expected)))
    × (abs (actual -ℤ expected) ≤ℤ tolerance)

-- The difference of equal amounts.
abs_same : (x y : ℤ) → y ≡ x → pos 0 ≡ abs (y -ℤ x)
abs_same x y h = rw h (ground (arith, -ℤ_parts x x))

same_within : (x y tolerance : ℤ) → y ≡ x → pos 0 ≤ℤ tolerance → abs (y -ℤ x) ≤ℤ tolerance
same_within x y tolerance h t = rw h (ground (arith, -ℤ_parts x x))

-- A justified result that needs no review balances.
Justified-Balances :
    (e : ReconciliationEngine) (given : Given) {o : Outcome}
    → Justified e given o
    → pos 0 ≤ℤ e.config.amount_tolerance
    → o.requires_review ≡ false
    → Balances e.config.amount_tolerance o
unfolding duplicate_outcome exact_outcome settlement_outcome tolerance_outcome many_to_one_outcome
    one_to_many_outcome awaiting_outcome unmatched_bank_outcome unmatched_invoice_outcome
Justified-Balances e given (Justified.duplicate group linked known two alike from named) t h =
    absurd (cc)
Justified-Balances e given (Justified.exact invoice bank payment due) t h = (
  invoice.amount_due,
  bank.amount,
  refl,
  refl,
  ap some (abs_same _ _ due),
  same_within _ _ e.config.amount_tolerance due t,
)
Justified-Balances e given (Justified.payout group linked bank payout covered) t h = (
  net_of (members group),
  bank.amount,
  refl,
  refl,
  refl,
  same_within _ _ e.config.amount_tolerance payout.net_amount t,
)
Justified-Balances e given (Justified.tolerance invoice bank payment off near) t h =
    (invoice.amount_due, bank.amount, refl, refl, refl, near)
Justified-Balances e given (Justified.many_to_one bank chosen payments small sums) t h = (
  sum (map (λ invoice. invoice.amount_due) chosen),
  bank.amount,
  refl,
  refl,
  ap some (abs_same _ _ (sym sums)),
  same_within _ _ e.config.amount_tolerance (sym sums) t,
)
Justified-Balances e given (Justified.one_to_many invoice chosen payments small sums) t h = (
  invoice.amount_due,
  sum (map (λ bank. bank.amount) chosen),
  refl,
  refl,
  ap some (abs_same _ _ sums),
  same_within _ _ e.config.amount_tolerance sums t,
)
Justified-Balances e given (Justified.awaiting first rest linked known from refer) t h = absurd (cc)
Justified-Balances e given (Justified.unmatched_bank bank known) t h = absurd (cc)
Justified-Balances e given (Justified.unmatched_invoice invoice known) t h = absurd (cc)

module _ (e : ReconciliationEngine) (banks : List BankTransaction) (erp : List ErpInvoice)
    (gateways : List GatewaySettlementEntry) (rs : List ReconciliationResult) where
  abbrev given : Given
  given = record { banks = banks; invoices = erp; gateways = gateways }

  -- Every result that `reconcile` returns is justified by the evidence that its rule names, in the
  -- records that `reconcile` was given, and passes the checks of the `ReconciliationResult`
  -- constructor, so building it never raises.
  pub reconcile-Justified :
      reconcile e banks erp gateways ≡ ok rs
      → All
          (λ r.
            Justified e record { banks = banks; invoices = erp; gateways = gateways } r.outcome
            × (accepts r ≡ true))
          rs
  unfolding reconcile reconcile_sorted
  reconcile-Justified h =
      let ran =
        finished-Sound e given (sort bank_leb banks) (sort invoice_leb erp)
          (sort gateway_leb gateways) (sort-AreFrom bank_leb banks) (sort-AreFrom invoice_leb erp)
          (sort-AreFrom gateway_leb gateways) in
      let same : (finished e (sort bank_leb banks) (sort invoice_leb erp)
            (sort gateway_leb gateways)).results
          ≡ rs =
        ground arith in
      subst (All _) same ran

  -- With a tolerance that is not negative, every result is marked for review, or states an expected
  -- and an actual amount, and their absolute difference, which is within the tolerance.
  pub reconcile-Balances :
      reconcile e banks erp gateways ≡ ok rs
      → pos 0 ≤ℤ e.config.amount_tolerance
      → All (λ r. (r.requires_review ≡ true) ⊎ Balances e.config.amount_tolerance r.outcome) rs
  reconcile-Balances h t =
      All-map_of _ (λ r. (r.requires_review ≡ true) ⊎ Balances e.config.amount_tolerance r.outcome)
        (λ r j. elim (Bool-cases r.requires_review) [
          | inl review ↦ inl review
          | inr plain ↦ inr (Justified-Balances e given j.0 t plain)
        ])
        rs (reconcile-Justified h)
