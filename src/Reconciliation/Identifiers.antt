-- ===== src/Reconciliation/Identifiers.antt =====
-- `_validate_unique_source_ids`: the comparison of lengths tells whether an identifier repeats.
use reconcileflow_ai.Prelude.{
  ◌≤◌, ◌≡◌, refl, ◌↔◌, inl, inr, true, List, [], ◌∷◌, arith, length, Text, Bool-cases, text_eq,
  text_eq→eq, text_eq_refl,
}
use reconcileflow_ai.Prelude.Count.{member, count, count_of_member, count_of_not_member}
use reconcileflow_ai.Reconciliation.Engine.{distinct, all_distinct}

length_le-distinct : (xs : List Text) → length (distinct xs) ≤ length xs
unfolding distinct
length_le-distinct [] = omega arith
length_le-distinct (x ∷ xs) = ground (arith, length_le-distinct xs)

distinct→count : (y : Text) (xs : List Text) → length xs ≡ length (distinct xs) → count y xs ≤ 1
unfolding distinct count
distinct→count y [] h = omega arith
distinct→count y (x ∷ xs) h = elim (Bool-cases (member x xs)) [
  | inl old ↦ absurd (omega (arith, length_le-distinct xs, rw (old, distinct) at h))
  | inr new ↦ elim (Bool-cases (text_eq y x)) [
    | inl same ↦ ground (arith, count_of_not_member y xs (rw (text_eq→eq y x same) new))
    | inr other ↦ ground (arith, distinct→count y xs)
  ]
]

count→distinct : (xs : List Text) → ((y : Text) → count y xs ≤ 1) → length xs ≡ length (distinct xs)
unfolding distinct count
count→distinct [] h = refl
count→distinct (x ∷ xs) h = elim (Bool-cases (member x xs)) [
  | inl old ↦ absurd (ground (arith, h x, text_eq_refl x, count_of_member x xs old))
  | inr new ↦ ground (arith, count→distinct xs (λ y. ground (arith, h y)))
]

pub all_distinct_iff : (xs : List Text) → (all_distinct xs ≡ true) ↔ ((y : Text) → count y xs ≤ 1)
unfolding all_distinct
all_distinct_iff xs =
    (λ h y. distinct→count y xs (ground arith), λ h. ground (arith, count→distinct xs h))
