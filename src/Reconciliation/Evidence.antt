-- ===== src/Reconciliation/Evidence.antt =====
-- Phases 1 to 3 add only results that are justified, and what every phase takes for that.
use mathlib.Core.List.{Memᴰ}
use reconcileflow_ai.Prelude.{
  ℕ, ◌≡◌, refl, inl, inr, true, false, some, List, length, All, All-append, any, filter, text_eq→eq,
  arith, ltb, Bool-cases, Option-cases, subst, is_blank, ◌+◌,
}
use reconcileflow_ai.Prelude.Int.{eq_ℤ→eq}
use reconcileflow_ai.Prelude.Count.{member}
use reconcileflow_ai.Prelude.Members.{All-map_of, All-filter}
use reconcileflow_ai.Models.{BankTransaction, ErpInvoice, GatewaySettlementEntry}
use reconcileflow_ai.Reconciliation.Results.{Outcome, accepts, rule_text}
use reconcileflow_ai.Reconciliation.Matching.{ReconciliationEngine, sole}
use reconcileflow_ai.Reconciliation.Combinations.{sole-eq_some}
use reconcileflow_ai.Reconciliation.Grouping.{Group, members, same_fingerprint, same_settlement}
use reconcileflow_ai.Reconciliation.Progress.{Progress, settle, mark, add, numbered}
use reconcileflow_ai.Reconciliation.Outcomes.{
  duplicate_outcome, exact_outcome, settlement_outcome, tolerance_outcome, many_to_one_outcome,
  one_to_many_outcome, awaiting_outcome, unmatched_bank_outcome, unmatched_invoice_outcome,
}
use reconcileflow_ai.Reconciliation.Phases.{
  duplicate_step, exact_candidate, exact_step, payout_candidate, settlement_linked, settlement_step,
  near, duplicate_linked, net_of, gross_of,
}
use reconcileflow_ai.Reconciliation.Justified.{
  Given, AreFrom, IsPayment, IsPayout, IsCovered, Justified,
}

-- The only element that a test keeps.
pub sole_All {ℓ κ} :
    {A : Type ℓ} (P : A → Type κ) (xs : List A) (a : A) → All P xs → sole xs ≡ some a → P a
sole_All P xs a h e = (subst (All P) (sole-eq_some xs a e) h).0

numbered_prefix : (n : ℕ) → is_blank (numbered n) ≡ false
unfolding numbered is_blank
numbered_prefix n = refl

-- The constructor of a result accepts what a rule states.
Justified-accepts :
    (e : ReconciliationEngine) (given : Given) (n : ℕ) (o : Outcome)
    → Justified e given o
    → accepts (record { result_id = numbered n; outcome = o }) ≡ true
unfolding accepts is_blank rule_text duplicate_outcome exact_outcome settlement_outcome
    tolerance_outcome many_to_one_outcome one_to_many_outcome awaiting_outcome
    unmatched_bank_outcome unmatched_invoice_outcome
Justified-accepts e given n o (Justified.duplicate group linked known two alike from named) =
    rw (numbered_prefix n)
Justified-accepts e given n o (Justified.exact invoice bank payment due) = rw (numbered_prefix n)
Justified-accepts e given n o (Justified.payout group linked bank payout covered) =
    rw (numbered_prefix n) (ground arith)
Justified-accepts e given n o (Justified.tolerance invoice bank payment off near) =
    rw (numbered_prefix n) (ground arith)
Justified-accepts e given n o (Justified.many_to_one bank chosen payments small sums) =
    rw (numbered_prefix n)
Justified-accepts e given n o (Justified.one_to_many invoice chosen payments small sums) =
    rw (numbered_prefix n)
Justified-accepts e given n o (Justified.awaiting first rest linked known from refer) =
    rw (numbered_prefix n)
Justified-accepts e given n o (Justified.unmatched_bank bank known) = rw (numbered_prefix n)
Justified-accepts e given n o (Justified.unmatched_invoice invoice known) = rw (numbered_prefix n)

module _ (e : ReconciliationEngine) (given : Given) where
  abbrev pub Sound : Progress → Type 0
  Sound p = All (λ r. Justified e given r.outcome × (accepts r ≡ true)) p.results

  pub add-Sound : (p : Progress) (o : Outcome) → Sound p → Justified e given o → Sound (add p o)
  unfolding add
  add-Sound p o h j =
      All-append _ p.results _ h ((j, Justified-accepts e given (length p.results + 1) o j), tt)

  pub settle-Sound :
      (p : Progress) (o : Outcome) → Sound p → Justified e given o → Sound (settle p o)
  unfolding settle mark
  settle-Sound p o h j =
      add-Sound (mark p o.bank_source_record_ids o.erp_invoice_ids o.gateway_source_record_ids) o h
        j

  exact_candidate→IsPayment :
      (p : Progress) (invoice : ErpInvoice) (bank : BankTransaction)
      → Memᴰ bank given.banks
      → Memᴰ invoice given.invoices
      → exact_candidate e p invoice bank ≡ true
      → IsPayment e given bank invoice × (bank.amount ≡ invoice.amount_due)
  unfolding exact_candidate
  exact_candidate→IsPayment p invoice bank b i h =
      ground
        (arith, text_eq→eq bank.currency invoice.currency, eq_ℤ→eq bank.amount invoice.amount_due)

  pub exact_step-Sound :
      (banks : List BankTransaction) (p : Progress) (invoice : ErpInvoice)
      → AreFrom given.banks banks
      → Sound p
      → Memᴰ invoice given.invoices
      → Sound (exact_step e banks p invoice)
  unfolding exact_step
  exact_step-Sound banks p invoice from h i =
      elim (Bool-cases (member invoice.invoice_id p.used_invoices)) [
        | inl used ↦ rw (used, exact_step) h
        | inr free ↦ elim (Option-cases (sole (filter (exact_candidate e p invoice) banks))) [
          | inl nobody ↦ rw (free, nobody, exact_step) h
          | inr (bank, found) ↦
              let known =
                sole_All _ _ bank (All-filter _ (exact_candidate e p invoice) banks from) found in
              let (payment, due) = exact_candidate→IsPayment p invoice bank known.0 i known.1 in
              rw (free, found, exact_step)
                (settle-Sound p _ h (Justified.exact invoice bank payment due))
        ]
      ]

  duplicate_linked-named :
      (erp : List ErpInvoice) (p : Progress) (group : Group BankTransaction)
      → AreFrom given.invoices erp
      → AreFrom given.invoices (duplicate_linked e erp p group)
        × All
            (λ invoice. any (λ bank. near e bank invoice) (members group) ≡ true)
            (duplicate_linked e erp p group)
  unfolding duplicate_linked
  duplicate_linked-named erp p group from =
      let kept = All-filter _ _ erp from in
      (
        All-map_of _ (λ invoice. Memᴰ invoice given.invoices) (λ invoice h. h.0) _ kept,
        All-map_of _ (λ invoice. any (λ bank. near e bank invoice) (members group) ≡ true)
            (λ invoice h. let t = h.1 in ground arith) _ kept,
      )

  -- Phase 1, for a group whose members share one fingerprint.
  pub duplicate_step-Sound :
      (erp : List ErpInvoice) (p : Progress) (group : Group BankTransaction)
      → AreFrom given.invoices erp
      → Sound p
      → AreFrom given.banks (members group)
      → All (λ bank. same_fingerprint group.first bank ≡ true) group.rest
      → Sound (duplicate_step e erp p group)
  unfolding duplicate_step
  duplicate_step-Sound erp p group from h known alike =
      elim (Bool-cases (ltb (length (members group)) 2)) [
        | inl few ↦ rw (few, duplicate_step) h
        | inr many ↦
            let linked = duplicate_linked-named erp p group from in
            rw (many, duplicate_step)
              (settle-Sound p _ h (
                Justified.duplicate group (duplicate_linked e erp p group) known (ground arith)
                  alike linked.0 linked.1))
      ]

  -- Phase 3, for a group of one settlement.
  candidate→IsPayout :
      (p : Progress) (group : Group GatewaySettlementEntry) (bank : BankTransaction)
      → Memᴰ bank given.banks
      → AreFrom given.gateways (members group)
      → All (λ entry. same_settlement group.first entry ≡ true) group.rest
      → payout_candidate e p group bank ≡ true
      → IsPayout e given bank group
  unfolding payout_candidate
  candidate→IsPayout p group bank b known alike h = ground (
    arith,
    text_eq→eq bank.currency group.first.settlement_currency,
    eq_ℤ→eq bank.amount (net_of (members group)),
  )

  settlement_linked-IsCovered :
      (erp : List ErpInvoice) (p : Progress) (group : Group GatewaySettlementEntry)
      → AreFrom given.invoices erp
      → All (IsCovered given group) (settlement_linked erp p group)
  unfolding settlement_linked
  settlement_linked-IsCovered erp p group from =
      All-map_of _ (IsCovered given group)
        (λ invoice (i, h). ground (
          arith,
          text_eq→eq invoice.currency group.first.currency,
          eq_ℤ→eq invoice.amount_due (gross_of (members group)),
        ))
        (settlement_linked erp p group) (All-filter _ _ erp from)

  pub settlement_step-Sound :
      (banks : List BankTransaction) (erp : List ErpInvoice) (p : Progress)
      (group : Group GatewaySettlementEntry)
      → AreFrom given.banks banks
      → AreFrom given.invoices erp
      → Sound p
      → AreFrom given.gateways (members group)
      → All (λ entry. same_settlement group.first entry ≡ true) group.rest
      → Sound (settlement_step e banks erp p group)
  unfolding settlement_step
  settlement_step-Sound banks erp p group from_banks from h known alike =
      elim (Option-cases (sole (filter (payout_candidate e p group) banks))) [
        | inl nobody ↦ rw (nobody, settlement_step) h
        | inr (bank, found) ↦
            let (b, passes) =
              sole_All _ _ bank (All-filter _ (payout_candidate e p group) banks from_banks)
                found in
            rw (found, settlement_step)
              (settle-Sound p _ h (
                Justified.payout group (settlement_linked erp p group) bank
                  (candidate→IsPayout p group bank b known alike passes)
                  (settlement_linked-IsCovered erp p group from)))
      ]
