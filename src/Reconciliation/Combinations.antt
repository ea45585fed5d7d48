-- ===== src/Reconciliation/Combinations.antt =====
-- What `_matching_combination` and `_matching_bank_combination` may choose.
use reconcileflow_ai.Prelude.{
  ℕ, zero, suc, ◌+◌, ◌≤◌, ◌<◌, ◌≡◌, sym, ◌⊎◌, inl, inr, true, Option, none, some, List, [], ◌∷◌,
  map, arith, Text, subst, All, All-append, Option-cases, dec_lt, length, refl,
}
use reconcileflow_ai.Prelude.Members.{All-filter}
use reconcileflow_ai.Prelude.Int.{ℤ, eq_ℤ, eq_ℤ→eq, sum}
use reconcileflow_ai.Prelude.Count.{count}
use reconcileflow_ai.Reconciliation.Matching.{
  sole, combinations, matches, matching_from, matching_combination,
}

-- What holds at one size and from the next on holds from that size on.
first_missed {ℓ} :
    {B : Type ℓ} (test : ℕ → Option B) (size m : ℕ)
    → test size ≡ none
    → (suc size ≤ m → test m ≡ none)
    → size ≤ m
    → test m ≡ none
first_missed test size m missed later h = elim (dec_lt size m) [
  | yes more ↦ later more
  | no same ↦ subst (λ k. test k ≡ none) (omega arith) missed
]

module _ {ℓ} {A : Type ℓ} where
  pub sole-eq_some : (xs : List A) (a : A) → sole xs ≡ some a → xs ≡ a ∷ []
  unfolding sole
  sole-eq_some [] a e = cc
  sole-eq_some (b ∷ []) a e = cc
  sole-eq_some (b ∷ c ∷ xs) a e = cc

module _ {ℓ} {A : Type ℓ} where
  -- The search returns nothing, or the single match of the first size that has one.
  pub matching_from_found :
      (rounds size : ℕ) (amount : A → ℤ) (xs : List A) (target : ℤ) (g : List A)
      → matching_from rounds size amount xs target ≡ g
      → (g ≡ [])
        ⊎ ((n : ℕ) × (size ≤ n)
            × (n < size + rounds)
            × (matches amount xs target n ≡ g ∷ [])
            × ((m : ℕ) → size ≤ m → m < n → sole (matches amount xs target m) ≡ none))
  unfolding matching_from
  matching_from_found zero size amount xs target g e = inl (sym e)
  matching_from_found (suc rounds) size amount xs target g e =
      elim (Option-cases (sole (matches amount xs target size))) [
        | inr (h, found) ↦
            let same : h ≡ g = rw (found, matching_from) at e in
            inr (
              size,
              omega arith,
              omega arith,
              subst (λ g. matches amount xs target size ≡ g ∷ []) same (sole-eq_some _ h found),
              λ m low high. absurd (omega arith),
            )
        | inl missed ↦
            elim (matching_from_found rounds (suc size) amount xs target g
              (rw (missed, matching_from) at e)) [
                | inl empty ↦ inl empty
                | inr (n, low, high, single, smaller) ↦ inr (
                  n,
                  omega arith,
                  omega arith,
                  single,
                  λ m h k.
                      first_missed (λ n. sole (matches amount xs target n)) size m missed
                        (λ l. smaller m l k) h,
                )
              ]
      ]

-- A property of the combinations of every size that starts from nothing and survives the two ways
-- of going on: take the next element, or leave it.
module _ {ℓ κ} {A : Type ℓ} (P : List A → List A → ℕ → Type κ)
    (none_taken : (xs : List A) → P xs [] 0)
    (take_next : (a : A) (xs g : List A) (n : ℕ) → P xs g n → P (a ∷ xs) (a ∷ g) (suc n))
    (leave_next : (a : A) (xs g : List A) (n : ℕ) → P xs g n → P (a ∷ xs) g n) where
  All-map_cons :
      (a : A) (xs : List A) (n : ℕ) (gs : List (List A))
      → All (λ g. P xs g n) gs
      → All (λ g. P (a ∷ xs) g (suc n)) (map (λ g. a ∷ g) gs)
  All-map_cons a xs n [] h = tt
  All-map_cons a xs n (g ∷ gs) h = (take_next a xs g n h.0, All-map_cons a xs n gs h.1)

  All-leave :
      (a : A) (xs : List A) (n : ℕ) (gs : List (List A))
      → All (λ g. P xs g n) gs
      → All (λ g. P (a ∷ xs) g n) gs
  All-leave a xs n [] h = tt
  All-leave a xs n (g ∷ gs) h = (leave_next a xs g n h.0, All-leave a xs n gs h.1)

  pub combinations-All : (n : ℕ) (xs : List A) → All (λ g. P xs g n) (combinations n xs)
  unfolding combinations
  combinations-All zero xs = (none_taken xs, tt)
  combinations-All (suc n) [] = tt
  combinations-All (suc n) (a ∷ xs) =
      All-append _ (map (λ g. a ∷ g) (combinations n xs)) (combinations (suc n) xs)
        (All-map_cons a xs n _ (combinations-All n xs))
        (All-leave a xs (suc n) _ (combinations-All (suc n) xs))

  -- A single match is a combination of its size whose amounts sum to the target.
  pub matches-All :
      (n : ℕ) (amount : A → ℤ) (xs : List A) (target : ℤ) (g : List A)
      → matches amount xs target n ≡ g ∷ []
      → P xs g n × (eq_ℤ (sum (map amount g)) target ≡ true)
  unfolding matches
  matches-All n amount xs target g single =
      (subst (All _) single (
        All-filter (λ g. P xs g n) (λ g. eq_ℤ (sum (map amount g)) target) (combinations n xs)
          (combinations-All n xs))).0

-- The group is no larger at any identifier than the candidates are.
pub count-matching_combination {ℓ} :
    {A : Type ℓ} (x : Text) (f : A → Text) (maximum : ℕ) (amount : A → ℤ) (xs : List A) (target : ℤ)
    (g : List A)
    → matching_combination maximum amount xs target ≡ g
    → count x (map f g) ≤ count x (map f xs)
unfolding matching_combination count
count-matching_combination x f maximum amount xs target g e =
    elim (matching_from_found _ 2 amount xs target g e) [
      | inl empty ↦ rw empty (omega arith)
      | inr (n, low, high, single, smaller) ↦
          (matches-All (λ xs g n. count x (map f g) ≤ count x (map f xs)) (λ xs. omega arith)
            (λ a xs g n h. ground arith) (λ a xs g n h. ground arith) n amount xs target g single).0
    ]

-- A group that is returned holds candidates only, within the bounds, and sums to the target.
pub matching_combination-All {ℓ κ} :
    {A : Type ℓ} (Q : A → Type κ) (maximum : ℕ) (amount : A → ℤ) (xs : List A) (target : ℤ) (a : A)
    (rest : List A)
    → All Q xs
    → matching_combination maximum amount xs target ≡ a ∷ rest
    → All Q (a ∷ rest)
      × ((2 ≤ length (a ∷ rest)) × (length (a ∷ rest) ≤ maximum))
      × (sum (map amount (a ∷ rest)) ≡ target)
unfolding matching_combination
matching_combination-All Q maximum amount xs target a rest every e =
    elim (matching_from_found _ 2 amount xs target (a ∷ rest) e) [
      | inl empty ↦ absurd (cc)
      | inr (n, low, high, single, smaller) ↦
          let (group, sums) =
            matches-All (λ xs g n. (All Q xs → All Q g) × (length g ≡ n)) (λ xs. (λ _. tt, refl))
              (λ b ys g n h. (λ (q, qs). (q, h.0 qs), omega (arith, h.1)))
              (λ b ys g n h. (λ (q, qs). h.0 qs, h.1)) n amount xs target (a ∷ rest) single in
          (group.0 every, (omega (arith, group.1), omega (arith, group.1)), eq_ℤ→eq _ _ sums)
    ]
