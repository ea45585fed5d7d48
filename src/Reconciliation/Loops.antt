-- ===== src/Reconciliation/Loops.antt =====
-- The engine's loops: one rule for a loop whose items use up a budget, and what the leftovers add.
use reconcileflow_ai.Prelude.{
  ℕ, ◌+◌, ◌≤◌, ◌≡◌, refl, ◌⊎◌, inl, inr, not, [], ◌∷◌, List, map, arith, filter, Text, Bool-cases,
  List-cases, if◌then◌else◌,
}
use reconcileflow_ai.Prelude.Count.{member, count, count-append, count-map_append, filter_covers}
use reconcileflow_ai.Models.{BankTransaction, ErpInvoice, GatewaySettlementEntry}
use reconcileflow_ai.Reconciliation.Grouping.{Group, members}
use reconcileflow_ai.Reconciliation.GroupCounts.{flat}
use reconcileflow_ai.Reconciliation.Progress.{Progress, add, settle, mark}
use reconcileflow_ai.Reconciliation.Outcomes.{
  bank_ids, invoice_ids, gateway_ids, unmatched_bank_outcome, unmatched_invoice_outcome,
  awaiting_outcome,
}
use reconcileflow_ai.Reconciliation.Phases.{
  leftover_bank_step, leftover_invoice_step, free_bank, free_invoice, awaiting_step, free_gateway,
}
use reconcileflow_ai.Reconciliation.Engine.{loop}
use reconcileflow_ai.Reconciliation.Tracking.{
  listed_banks, listed_invoices, listed_gateways, count-listed_last,
}

abbrev pub total {ℓ} : {A : Type ℓ} → (A → ℕ) → List A → ℕ
total cost [] = 0
total cost (a ∷ xs) = cost a + total cost xs

pub total-ids {ℓ} :
    {A : Type ℓ} (x : Text) (f : A → Text) (xs : List A)
    → total (λ a. count x (f a ∷ [])) xs ≡ count x (map f xs)
unfolding count
total-ids x f [] = refl
total-ids x f (a ∷ xs) = ground (arith, total-ids x f xs)

pub total-members {ℓ} :
    {A : Type ℓ} (x : Text) (f : A → Text) (gs : List (Group A))
    → total (λ g. count x (map f (members g))) gs ≡ count x (map f (flat gs))
unfolding count
total-members x f [] = refl
total-members x f (g ∷ gs) =
    omega (arith, count-map_append x f (members g) (flat gs), total-members x f gs)

-- The invariant of a loop, where every item has a cost and the whole fits a budget.
pub loop_budget {ℓ κ} :
    {A : Type ℓ} (P : Progress → Type κ) (used : Progress → ℕ) (cost : A → ℕ) (budget : ℕ)
    (step : Progress → A → Progress)
    → ((p : Progress) (a : A)
        → P p
        → cost a + used p ≤ budget
        → P (step p a) × (used (step p a) ≤ cost a + used p))
    → (xs : List A) (p : Progress) → total cost xs + used p ≤ budget
    → P p
    → P (loop step p xs)
unfolding loop
loop_budget P used cost budget step keep [] p fits h = h
loop_budget P used cost budget step keep (a ∷ xs) p fits h =
    let (h', spent) = keep p a h (omega arith) in
    loop_budget P used cost budget step keep xs (step p a) (omega arith) h'

-- The same where nothing is used up.
pub loop_keeps {ℓ κ} :
    {A : Type ℓ} (P : Progress → Type κ) (cost : A → ℕ) (budget : ℕ)
    (step : Progress → A → Progress)
    → ((p : Progress) (a : A) → P p → cost a ≤ budget → P (step p a))
    → (xs : List A) (p : Progress) → total cost xs ≤ budget
    → P p
    → P (loop step p xs)
unfolding loop
loop_keeps P cost budget step keep [] p fits h = h
loop_keeps P cost budget step keep (a ∷ xs) p fits h =
    loop_keeps P cost budget step keep xs (step p a) (omega arith) (keep p a h (omega arith))

count_nil : (x : Text) → count x [] ≡ 0
unfolding count
count_nil x = refl

-- Phase 8 adds to the results exactly the identifiers that are not used.
module _ (x : Text) where
  pub leftover_banks :
      (xs : List BankTransaction) (p : Progress)
      → let q = loop leftover_bank_step p xs in
        (count x (listed_banks q.results)
          ≡ count x (listed_banks p.results) + count x (bank_ids (filter (free_bank p) xs)))
        × (count x (listed_invoices q.results) ≡ count x (listed_invoices p.results))
        × (count x (listed_gateways q.results) ≡ count x (listed_gateways p.results))
        × (q.used_invoices ≡ p.used_invoices)
  unfolding loop leftover_bank_step add unmatched_bank_outcome filter
  leftover_banks [] p = (omega (arith, count_nil x), refl, refl, refl)
  leftover_banks (bank ∷ xs) p = elim (Bool-cases (member bank.source_record_id p.used_banks)) [
    | inl used ↦ rw (used, leftover_bank_step, loop, filter, not) (leftover_banks xs p)
    | inr free ↦
        let id = bank.source_record_id in
        let (b, i, g, u) = leftover_banks xs (add p (unmatched_bank_outcome bank)) in
        rw (free, leftover_bank_step, loop, filter, not, if◌then◌else◌)
          (
            omega (
              arith,
              b,
              count-listed_last x (λ r. r.bank_source_record_ids),
              count-append x (id ∷ []) (bank_ids (filter (free_bank p) xs)),
            ),
            omega (arith, i, count_nil x, count-listed_last x (λ r. r.erp_invoice_ids)),
            omega (arith, g, count_nil x, count-listed_last x (λ r. r.gateway_source_record_ids)),
            u,
          )
  ]

  pub leftover_invoices :
      (xs : List ErpInvoice) (p : Progress)
      → let q = loop leftover_invoice_step p xs in
        (count x (listed_invoices q.results)
          ≡ count x (listed_invoices p.results)
            + count x (invoice_ids (filter (free_invoice p) xs)))
        × (count x (listed_banks q.results) ≡ count x (listed_banks p.results))
        × (count x (listed_gateways q.results) ≡ count x (listed_gateways p.results))
  unfolding loop leftover_invoice_step add unmatched_invoice_outcome filter
  leftover_invoices [] p = (omega (arith, count_nil x), refl, refl)
  leftover_invoices (invoice ∷ xs) p =
      elim (Bool-cases (member invoice.invoice_id p.used_invoices)) [
        | inl used ↦ rw (used, leftover_invoice_step, loop, filter, not) (leftover_invoices xs p)
        | inr free ↦
            let id = invoice.invoice_id in
            let (i, b, g) = leftover_invoices xs (add p (unmatched_invoice_outcome invoice)) in
            rw (free, leftover_invoice_step, loop, filter, not, if◌then◌else◌)
              (
                omega (
                  arith,
                  i,
                  count-listed_last x (λ r. r.erp_invoice_ids),
                  count-append x (id ∷ []) (invoice_ids (filter (free_invoice p) xs)),
                ),
                omega (arith, b, count_nil x, count-listed_last x (λ r. r.bank_source_record_ids)),
                omega
                    (arith, g, count_nil x, count-listed_last x (λ r. r.gateway_source_record_ids)),
              )
      ]

  -- Phase 7 marks every entry of the groups that it passes.
  awaiting_step_covers :
      (erp : List ErpInvoice) (p : Progress) (group : Group GatewaySettlementEntry)
      → let q = awaiting_step erp p group in
        (count x p.used_gateways ≤ count x q.used_gateways)
        × ((count x (gateway_ids (members group)) ≡ 0) ⊎ (1 ≤ count x q.used_gateways))
  unfolding awaiting_step settle mark add awaiting_outcome
  awaiting_step_covers erp p group = elim (List-cases (filter (free_gateway p) (members group))) [
    | inl empty ↦
        let covered =
          filter_covers x (λ entry. entry.source_record_id) p.used_gateways (members group) in
        rw (empty, awaiting_step) (omega arith, omega (arith, count_nil x, rw empty at covered))
    | inr (a, rest, remaining) ↦
        let covered =
          filter_covers x (λ entry. entry.source_record_id) p.used_gateways (members group) in
        let more = count-append x (gateway_ids (a ∷ rest)) p.used_gateways in
        rw (remaining, awaiting_step)
          (omega (arith, more), omega (arith, more, rw remaining at covered))
  ]

  pub awaiting_covers :
      (erp : List ErpInvoice) (gs : List (Group GatewaySettlementEntry)) (p : Progress)
      → let q = loop (awaiting_step erp) p gs in
        (count x p.used_gateways ≤ count x q.used_gateways)
        × ((total (λ g. count x (gateway_ids (members g))) gs ≡ 0) ⊎ (1 ≤ count x q.used_gateways))
  unfolding loop
  awaiting_covers erp [] p = (omega arith, inl refl)
  awaiting_covers erp (g ∷ gs) p =
      let first = awaiting_step_covers erp p g in
      let later = awaiting_covers erp gs (awaiting_step erp p g) in
      (omega (arith, first, later), omega (arith, first, later))
