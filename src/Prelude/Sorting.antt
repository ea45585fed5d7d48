-- ===== src/Prelude/Sorting.antt =====
-- Python's `sorted`, which is stable, as insertion by a Boolean order, and what it keeps.
use mathlib.Core.List.{Memᴰ}
use reconcileflow_ai.Prelude.{
  ◌≡◌, refl, ◌∙◌, inl, inr, Bool, List, [], ◌∷◌, map, arith, if◌then◌else◌, Text, Bool-cases, All,
  Option, none, some, Option-cases, true, false, sym, subst,
}
use reconcileflow_ai.Prelude.Count.{count}
use reconcileflow_ai.Prelude.Members.{All-map_of}

module _ {ℓ} {A : Type ℓ} where
  unfoldable pub insert : (A → A → Bool) → A → List A → List A
  insert le x [] = x ∷ []
  insert le x (y ∷ ys) = let rest = insert le x ys in if le x y then x ∷ y ∷ ys else y ∷ rest

  unfoldable pub sort : (A → A → Bool) → List A → List A
  unfolding insert
  sort le [] = []
  sort le (x ∷ xs) = insert le x (sort le xs)

  count-insert :
      (t : Text) (f : A → Text) (le : A → A → Bool) (x : A) (xs : List A)
      → count t (map f (insert le x xs)) ≡ count t (f x ∷ map f xs)
  unfolding insert count
  count-insert t f le x [] = refl
  count-insert t f le x (y ∷ ys) = elim (Bool-cases (le x y)) [
    | inl e ↦ rw (e, insert)
    | inr e ↦ rw (e, insert) (ground (arith, count-insert t f le x ys))
  ]

  -- Sorting keeps every identifier as often as it was there.
  pub count-sort :
      (t : Text) (f : A → Text) (le : A → A → Bool) (xs : List A)
      → count t (map f (sort le xs)) ≡ count t (map f xs)
  unfolding sort count
  count-sort t f le [] = refl
  count-sort t f le (x ∷ xs) =
      count-insert t f le x (sort le xs) ∙ ground (arith, count-sort t f le xs)

  pub All-insert {κ} :
      (P : A → Type κ) (le : A → A → Bool) (x : A) (xs : List A)
      → P x
      → All P xs
      → All P (insert le x xs)
  unfolding insert
  All-insert P le x [] p h = (p, tt)
  All-insert P le x (y ∷ ys) p h = elim (Bool-cases (le x y)) [
    | inl e ↦ rw (e, insert) (p, h)
    | inr e ↦ rw (e, insert) (h.0, All-insert P le x ys p h.1)
  ]

  pub All-sort {κ} :
      (P : A → Type κ) (le : A → A → Bool) (xs : List A) → All P xs → All P (sort le xs)
  unfolding sort
  All-sort P le [] h = tt
  All-sort P le (x ∷ xs) h = All-insert P le x (sort le xs) h.0 (All-sort P le xs h.1)

module _ {ℓ} {A : Type ℓ} where
  -- `limit(1)`
  abbrev pub first : List A → Option A
  first [] = none
  first (x ∷ xs) = some x

  insert_head :
      (le : A → A → Bool) (a : A) (ys : List A)
      → first (insert le a ys)
        ≡ some (elim (first ys) [ none ↦ a | some y ↦ if le a y then a else y ])
  unfolding insert
  insert_head le a [] = refl
  insert_head le a (y ∷ ys) = elim (Bool-cases (le a y)) [
    | inl e ↦ rw (e, if◌then◌else◌)
    | inr e ↦ rw (e, if◌then◌else◌)
  ]

  pub first-sort-none : (le : A → A → Bool) (xs : List A) → first (sort le xs) ≡ none → xs ≡ []
  unfolding sort
  first-sort-none le [] h = refl
  first-sort-none le (x ∷ xs) h = absurd (let e = insert_head le x (sort le xs) in cc)

  -- The first of a sorted list, when the order is total and transitive: an element of the list
  -- that comes before every element.
  pub first-sort :
      (le : A → A → Bool)
      → ((a b : A) → le a b ≡ false → le b a ≡ true)
      → ((a b c : A) → le a b ≡ true → le b c ≡ true → le a c ≡ true)
      → (xs : List A) (x : A) → first (sort le xs) ≡ some x
      → Memᴰ x xs × All (λ y. le x y ≡ true) xs
  unfolding sort
  first-sort le total trans [] x h = absurd (cc)
  first-sort le total trans (a ∷ xs) x h =
      let e = insert_head le a (sort le xs) in
      let own : le a a ≡ true = elim (Bool-cases (le a a)) [ inl h ↦ h | inr h ↦ total a a h ] in
      elim (Option-cases (first (sort le xs))) [
        | inl empty ↦
            let e' : first (insert le a (sort le xs)) ≡ some a = rw empty at e in
            let same : a ≡ x = cc in
            let none_left = first-sort-none le xs empty in
            rw (none_left) (Memᴰ.head (sym same), (rw (sym same) own, tt))
        | inr (y, is) ↦
            let (m, least) = first-sort le total trans xs y is in
            elim (Bool-cases (le a y)) [
              | inl before ↦
                  let e' : first (insert le a (sort le xs)) ≡ some a = rw (is, before) at e in
                  let same : a ≡ x = cc in
                  subst (λ v. Memᴰ v (a ∷ xs) × All (λ z. le v z ≡ true) (a ∷ xs)) same
                    (Memᴰ.head refl, (own, All-map_of _ _ (λ z l. trans a y z before l) xs least))
              | inr after ↦
                  let e' : first (insert le a (sort le xs)) ≡ some y = rw (is, after) at e in
                  let same : y ≡ x = cc in
                  subst (λ v. Memᴰ v (a ∷ xs) × All (λ z. le v z ≡ true) (a ∷ xs)) same
                    (Memᴰ.tail m, (total a y after, least))
            ]
      ]
