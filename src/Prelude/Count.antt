-- ===== src/Prelude/Count.antt =====
-- How often an identifier stands in a list, and Boolean membership.
use Prim.Native.Nat.{ℕ, suc, ◌+◌, ◌≤◌}
use mathlib.Core.Path.{◌≡◌, refl}
use mathlib.Core.Bool.{Bool, true, false, not, ◌||◌}
use mathlib.Core.List.{List, [], ◌∷◌, ◌++◌, map}
use native.Mathlib.Omega.{arith}
use reconcileflow_ai.Prelude.Tests.{if◌then◌else◌, Bool-cases}
use reconcileflow_ai.Prelude.Lists.{filter}
use mathlib.Core.Logic.{◌⊎◌, inl, inr}
use reconcileflow_ai.Prelude.Words.{Text, text_eq, text_eq→eq}

-- `x in xs`
unfoldable pub member : Text → List Text → Bool
member x [] = false
member x (y ∷ ys) = text_eq x y || member x ys

unfoldable pub count : Text → List Text → ℕ
count x [] = 0
count x (y ∷ ys) = let rest = count x ys in if text_eq x y then suc rest else rest

pub count-append : (x : Text) (xs ys : List Text) → count x (xs ++ ys) ≡ count x xs + count x ys
unfolding count
count-append x [] ys = omega arith
count-append x (y ∷ xs) ys = ground (arith, count-append x xs ys)

-- An identifier that is not a member is counted nowhere.
pub count_of_not_member : (x : Text) (xs : List Text) → member x xs ≡ false → count x xs ≡ 0
unfolding count member
count_of_not_member x [] h = refl
count_of_not_member x (y ∷ xs) h = ground (arith, count_of_not_member x xs)

pub count_of_member : (x : Text) (xs : List Text) → member x xs ≡ true → 1 ≤ count x xs
unfolding count member
count_of_member x [] h = absurd (cc)
count_of_member x (y ∷ xs) h = ground (arith, count_of_member x xs)

pub count_le-filter {ℓ} :
    {A : Type ℓ} (x : Text) (f : A → Text) (p : A → Bool) (xs : List A)
    → count x (map f (filter p xs)) ≤ count x (map f xs)
unfolding count filter
count_le-filter x f p [] = omega arith
count_le-filter x f p (a ∷ xs) = ground (arith, count_le-filter x f p xs)

-- Where a filter keeps only elements outside a set, no identifier is on both sides.
pub filter_fresh {ℓ} :
    {A : Type ℓ} (x : Text) (f : A → Text) (p : A → Bool) (used : List Text) (xs : List A)
    → ((a : A) → p a ≡ true → member (f a) used ≡ false)
    → (count x (map f (filter p xs)) ≡ 0) ⊎ (count x used ≡ 0)
unfolding count filter
filter_fresh x f p used [] fresh = inl refl
filter_fresh x f p used (a ∷ xs) fresh = elim (Bool-cases (p a)) [
  | inl kept ↦ elim (Bool-cases (text_eq x (f a))) [
    | inl same ↦ inr (count_of_not_member x used (rw (text_eq→eq x (f a) same) (fresh a kept)))
    | inr other ↦ rw (kept, filter, other, if◌then◌else◌) (filter_fresh x f p used xs fresh)
  ]
  | inr dropped ↦ rw (dropped, filter) (filter_fresh x f p used xs fresh)
]

pub count-map_append {ℓ} :
    {A : Type ℓ} (x : Text) (f : A → Text) (xs ys : List A)
    → count x (map f (xs ++ ys)) ≡ count x (map f xs) + count x (map f ys)
unfolding count
count-map_append x f [] ys = omega arith
count-map_append x f (a ∷ xs) ys = ground (arith, count-map_append x f xs ys)

-- What a filter by "not in the set" leaves out, the set holds.
pub filter_covers {ℓ} :
    {A : Type ℓ} (x : Text) (f : A → Text) (used : List Text) (xs : List A)
    → (count x (map f xs) ≡ 0)
      ⊎ (1 ≤ count x (map f (filter (λ a. not (member (f a) used)) xs)) + count x used)
unfolding count filter
filter_covers x f used [] = inl refl
filter_covers x f used (a ∷ xs) = elim (Bool-cases (text_eq x (f a))) [
  | inr other ↦ ground (arith, filter_covers x f used xs)
  | inl same ↦ elim (Bool-cases (member (f a) used)) [
    | inl old ↦
        let held = count_of_member x used (rw (text_eq→eq x (f a) same) old) in inr (omega arith)
    | inr new ↦ inr (ground arith)
  ]
]
