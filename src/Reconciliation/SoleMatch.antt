-- ===== src/Reconciliation/SoleMatch.antt =====
-- What the searches for a combination promise: the one group of its size that sums to the target.
use mathlib.Core.List.{Sublistᴰ, Memᴰ}
use mathlib.Core.List.Memᴰ
use reconcileflow_ai.Prelude.{
  ℕ, suc, ◌≤◌, ◌<◌, ◌≡◌, ◌≢◌, refl, ◌∙◌, inl, inr, true, none, List, [], ◌∷◌, map, arith, length,
  subst,
}
use reconcileflow_ai.Prelude.Members.{Memᴰ-filter}
use reconcileflow_ai.Prelude.Int.{ℤ, eq_ℤ, sum}
use reconcileflow_ai.Reconciliation.Matching.{sole, combinations, matches, matching_combination}
use reconcileflow_ai.Reconciliation.Combinations.{matching_from_found, matches-All}

module _ {ℓ} {A : Type ℓ} where
  nil_sublist : (xs : List A) → Sublistᴰ [] xs
  nil_sublist [] = Sublistᴰ.slnil
  nil_sublist (x ∷ xs) = Sublistᴰ.cons (nil_sublist xs)

  -- `combinations` enumerates every sublist of its size.
  combinations-complete : (g xs : List A) → Sublistᴰ g xs → Memᴰ g (combinations (length g) xs)
  unfolding combinations
  combinations-complete [] [] Sublistᴰ.slnil = Memᴰ.head refl
  combinations-complete [] (x ∷ xs) s = Memᴰ.head refl
  combinations-complete (a ∷ g) [] s = elim s [ ]
  combinations-complete (a ∷ g) (x ∷ xs) (Sublistᴰ.cons s) =
      Memᴰ.append_right (map (λ h. x ∷ h) (combinations (length g) xs))
        (combinations-complete (a ∷ g) xs s)
  combinations-complete (a ∷ g) (x ∷ xs) (Sublistᴰ.cons-cons e s) =
      Memᴰ.append_left (combinations (suc (length g)) xs) (
        subst (λ b. Memᴰ (a ∷ g) (map (λ h. b ∷ h) (combinations (length g) xs))) e
          (Memᴰ.map (λ h. a ∷ h) (combinations-complete g xs s)))

  -- `g` is the only group of its size that sums to the target, among the groups taken in order.
  pub record IsSoleMatch (amount : A → ℤ) (xs : List A) (target : ℤ) (g : List A) : Type ℓ where
    pub chosen : Sublistᴰ g xs
    pub sums : eq_ℤ (sum (map amount g)) target ≡ true
    pub only :
        (h : List A)
        → Sublistᴰ h xs
        → length h ≡ length g
        → eq_ℤ (sum (map amount h)) target ≡ true
        → h ≡ g

  matches-IsSoleMatch :
      (amount : A → ℤ) (xs : List A) (target : ℤ) (n : ℕ) (g : List A)
      → length g ≡ n
      → Sublistᴰ g xs
      → eq_ℤ (sum (map amount g)) target ≡ true
      → matches amount xs target n ≡ g ∷ []
      → IsSoleMatch amount xs target g
  unfolding matches
  matches-IsSoleMatch amount xs target n g len s t single = record {
    chosen = s;
    sums = t;
    only = λ h sh lh th. Memᴰ.eq_of_singleton (
        subst (λ hs. Memᴰ h hs) single
          (Memᴰ-filter h _ (combinations n xs)
            (subst (λ k. Memᴰ h (combinations k xs)) (lh ∙ len) (combinations-complete h xs sh))
            th));
  }

-- A group that a search returns, if any: of the smallest size in range at which exactly one group
-- sums to the target, and that group. It has at least two members and at most the maximum.
pub matching_combination-IsSoleMatch {ℓ} :
    {A : Type ℓ} (maximum : ℕ) (amount : A → ℤ) (xs : List A) (target : ℤ) (g : List A)
    → matching_combination maximum amount xs target ≡ g
    → g ≢ []
    → (2 ≤ length g)
      × (length g ≤ maximum)
      × (length g ≤ length xs)
      × IsSoleMatch amount xs target g
      × ((m : ℕ) → 2 ≤ m → m < length g → sole (matches amount xs target m) ≡ none)
unfolding matching_combination
matching_combination-IsSoleMatch maximum amount xs target g returned found =
    elim (matching_from_found _ 2 amount xs target g returned) [
      | inl empty ↦ absurd (found empty)
      | inr (n, low, high, single, smaller) ↦
          let (size, sums) =
            matches-All (λ xs g n. Sublistᴰ g xs × (length g ≡ n)) (λ xs. (nil_sublist xs, refl))
              (λ a xs g n h. (Sublistᴰ.cons-cons refl h.0, omega (arith, h.1)))
              (λ a xs g n h. (Sublistᴰ.cons h.0, h.1)) n amount xs target g single in
          (
            omega (arith, size.1),
            omega (arith, size.1),
            omega (arith, size.1),
            matches-IsSoleMatch amount xs target n g size.1 size.0 sums single,
            λ m h k. smaller m h (omega (arith, size.1)),
          )
    ]
