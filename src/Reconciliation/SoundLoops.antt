-- ===== src/Reconciliation/SoundLoops.antt =====
-- The loops of `reconcile` keep the results justified.
use mathlib.Core.List.{Memᴰ}
use reconcileflow_ai.Prelude.{
  ◌≡◌, refl, inl, inr, Bool, true, List, [], ◌∷◌, All, All-append, Bool-cases,
}
use reconcileflow_ai.Prelude.Sorting.{sort, All-sort}
use reconcileflow_ai.Prelude.Members.{All-map_of}
use reconcileflow_ai.Models.{BankTransaction, ErpInvoice, GatewaySettlementEntry}
use reconcileflow_ai.Reconciliation.Matching.{ReconciliationEngine}
use reconcileflow_ai.Reconciliation.Grouping.{
  Group, members, insert_group, group_from, group_by, same_fingerprint, same_settlement,
  duplicate_leb, settlement_leb,
}
use reconcileflow_ai.Reconciliation.Progress.{Progress, start}
use reconcileflow_ai.Reconciliation.Engine.{
  loop, duplicate_groups, settlement_groups, matched_exactly, matched_loosely, finished,
}
use reconcileflow_ai.Reconciliation.Justified.{Given, AreFrom}
use reconcileflow_ai.Reconciliation.Evidence.{
  Sound, duplicate_step-Sound, exact_step-Sound, settlement_step-Sound,
}
use reconcileflow_ai.Reconciliation.LateEvidence.{
  tolerance_step-Sound, many_to_one_step-Sound, one_to_many_step-Sound, awaiting_step-Sound,
  leftover_bank_step-Sound, leftover_invoice_step-Sound,
}

-- The members of a group have the key of its first, and stand in the list that was grouped.
module _ {ℓ} {A : Type ℓ} (same : A → A → Bool) (source : List A) where
  abbrev IsAlike : Group A → Type ℓ
  IsAlike g = AreFrom source (members g) × All (λ a. same g.first a ≡ true) g.rest

  insert_group-IsAlike :
      (a : A) (gs : List (Group A))
      → Memᴰ a source
      → All IsAlike gs
      → All IsAlike (insert_group same a gs)
  unfolding insert_group
  insert_group-IsAlike a [] m h = (((m, tt), tt), tt)
  insert_group-IsAlike a (g ∷ gs) m ((known, alike), h) = elim (Bool-cases (same g.first a)) [
    | inl e ↦
        rw (e, insert_group)
          (
            (
              (known.0, All-append (λ x. Memᴰ x source) g.rest (a ∷ []) known.1 (m, tt)),
              All-append (λ x. same g.first x ≡ true) g.rest (a ∷ []) alike (e, tt),
            ),
            h,
          )
    | inr e ↦ rw (e, insert_group) ((known, alike), insert_group-IsAlike a gs m h)
  ]

  group_from-IsAlike :
      (gs : List (Group A)) (xs : List A)
      → AreFrom source xs
      → All IsAlike gs
      → All IsAlike (group_from same gs xs)
  unfolding group_from
  group_from-IsAlike gs [] from h = h
  group_from-IsAlike gs (a ∷ xs) from h =
      group_from-IsAlike (insert_group same a gs) xs from.1 (insert_group-IsAlike a gs from.0 h)

  group_by-IsAlike : (xs : List A) → AreFrom source xs → All IsAlike (group_by same xs)
  unfolding group_by
  group_by-IsAlike xs from = group_from-IsAlike [] xs from tt

-- A loop keeps what its body keeps, for items that qualify.
loop-Sound {ℓ κ} :
    {A : Type ℓ} (e : ReconciliationEngine) (given : Given) (Q : A → Type κ)
    (step : Progress → A → Progress)
    → ((p : Progress) (a : A) → Sound e given p → Q a → Sound e given (step p a))
    → (xs : List A) (p : Progress) → All Q xs
    → Sound e given p
    → Sound e given (loop step p xs)
unfolding loop
loop-Sound e given Q step keep [] p q h = h
loop-Sound e given Q step keep (a ∷ xs) p q h =
    loop-Sound e given Q step keep xs (step p a) q.1 (keep p a h q.0)

-- The phases, of lists whose elements are given.
module _ (e : ReconciliationEngine) (given : Given) (banks : List BankTransaction)
    (erp : List ErpInvoice) (gateways : List GatewaySettlementEntry)
    (from_banks : AreFrom given.banks banks) (from_invoices : AreFrom given.invoices erp)
    (from_gateways : AreFrom given.gateways gateways) where
  duplicate_groups-IsAlike : All (IsAlike same_fingerprint given.banks) (duplicate_groups banks)
  unfolding duplicate_groups
  duplicate_groups-IsAlike =
      All-sort _ duplicate_leb _ (group_by-IsAlike same_fingerprint given.banks banks from_banks)

  settlement_groups-IsAlike :
      All (IsAlike same_settlement given.gateways) (settlement_groups gateways)
  unfolding settlement_groups
  settlement_groups-IsAlike =
      All-sort _ settlement_leb _
        (group_by-IsAlike same_settlement given.gateways gateways from_gateways)

  matched_exactly-Sound : Sound e given (matched_exactly e banks erp gateways)
  unfolding matched_exactly start
  matched_exactly-Sound =
      loop-Sound e given (IsAlike same_settlement given.gateways) _
        (λ p g h (known, alike).
          settlement_step-Sound e given banks erp p g from_banks from_invoices h known alike)
        (settlement_groups gateways) _ settlement_groups-IsAlike
        (loop-Sound e given (λ i. Memᴰ i given.invoices) _
          (λ p i h. exact_step-Sound e given banks p i from_banks h) erp _ from_invoices
          (loop-Sound e given (IsAlike same_fingerprint given.banks) _
            (λ p g h (known, alike).
              duplicate_step-Sound e given erp p g from_invoices h known alike)
            (duplicate_groups banks) _ duplicate_groups-IsAlike tt))

  matched_loosely-Sound : Sound e given (matched_loosely e banks erp gateways)
  unfolding matched_loosely
  matched_loosely-Sound =
      loop-Sound e given (λ i. Memᴰ i given.invoices) _
        (λ p i h. one_to_many_step-Sound e given banks p i from_banks h) erp _ from_invoices
        (loop-Sound e given (λ b. Memᴰ b given.banks) _
          (λ p b h. many_to_one_step-Sound e given erp p b from_invoices h) banks _ from_banks
          (loop-Sound e given (λ i. Memᴰ i given.invoices) _
            (λ p i h. tolerance_step-Sound e given banks p i from_banks h) erp _ from_invoices
            matched_exactly-Sound))

  pub finished-Sound : Sound e given (finished e banks erp gateways)
  unfolding finished
  finished-Sound =
      loop-Sound e given (λ i. Memᴰ i given.invoices) _ (leftover_invoice_step-Sound e given) erp _
        from_invoices
        (loop-Sound e given (λ b. Memᴰ b given.banks) _ (leftover_bank_step-Sound e given) banks _
          from_banks
          (loop-Sound e given (IsAlike same_settlement given.gateways) _
            (λ p g h (known, alike). awaiting_step-Sound e given erp p g from_invoices h known)
            (settlement_groups gateways) _ settlement_groups-IsAlike matched_loosely-Sound))

-- Every element of a list stands in it.
AreFrom-self {ℓ} : {A : Type ℓ} (xs : List A) → AreFrom xs xs
AreFrom-self [] = tt
AreFrom-self (x ∷ xs) =
    (Memᴰ.head refl, All-map_of _ (λ y. Memᴰ y (x ∷ xs)) (λ y m. Memᴰ.tail m) xs (AreFrom-self xs))

pub sort-AreFrom {ℓ} : {A : Type ℓ} (le : A → A → Bool) (xs : List A) → AreFrom xs (sort le xs)
sort-AreFrom le xs = All-sort (λ x. Memᴰ x xs) le xs (AreFrom-self xs)
