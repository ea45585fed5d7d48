-- ===== src/Maintenance/Batches.antt =====
-- Rows with keys under sorting, filtering and batches: a batch of distinct rows that pass a test is no
-- longer than the rows that pass it.
use mathlib.Core.List.{Memᴰ}
use reconcileflow_ai.Prelude.{
  ℕ, zero, suc, ◌<◌, ◌≤◌, ◌≡◌, refl, sym, ap, subst, inl, inr, Bool, true, false, not, List, [],
  ◌∷◌, filter, take, length, if◌then◌else◌, ◌==◌, Bool-cases, All, arith,
}
use reconcileflow_ai.Prelude.Members.{All-kept, Memᴰ-filter}
use reconcileflow_ai.Prelude.Sorting.{insert, sort, All-sort, All-insert}
use reconcileflow_ai.Prelude.Keyed.{one, total, Keyed, drop, drop-Keyed, total-drop}

module _ {ℓ} {A : Type ℓ} (key : A → ℕ) where
  pub filter-Keyed : (p : A → Bool) (xs : List A) → Keyed key xs → Keyed key (filter p xs)
  unfolding filter
  filter-Keyed p [] u = tt
  filter-Keyed p (x ∷ xs) u = elim (Bool-cases (p x)) [
    | inl e ↦
        rw (e, if◌then◌else◌)
          (All-kept (λ y. (key y == key x) ≡ false) p xs u.0, filter-Keyed p xs u.1)
    | inr e ↦ rw (e, if◌then◌else◌) (filter-Keyed p xs u.1)
  ]

  insert-Keyed :
      (le : A → A → Bool) (x : A) (xs : List A)
      → All (λ y. (key y == key x) ≡ false) xs
      → Keyed key xs
      → Keyed key (insert le x xs)
  unfolding insert
  insert-Keyed le x [] h u = (tt, tt)
  insert-Keyed le x (y ∷ ys) h u = elim (Bool-cases (le x y)) [
    | inl e ↦ rw (e, if◌then◌else◌) (h, u)
    | inr e ↦
        let other : (key x == key y) ≡ false = let d = h.0 in ground arith in
        rw (e, if◌then◌else◌)
          (
            All-insert (λ z. (key z == key y) ≡ false) le x ys other u.0,
            insert-Keyed le x ys h.1 u.1,
          )
  ]

  pub sort-Keyed : (le : A → A → Bool) (xs : List A) → Keyed key xs → Keyed key (sort le xs)
  unfolding sort
  sort-Keyed le [] u = tt
  sort-Keyed le (x ∷ xs) u =
      insert-Keyed le x (sort le xs) (All-sort (λ y. (key y == key x) ≡ false) le xs u.0)
        (sort-Keyed le xs u.1)

  take-All {κ} : (P : A → Type κ) (n : ℕ) (xs : List A) → All P xs → All P (take n xs)
  take-All P zero xs h = tt
  take-All P (suc n) [] h = tt
  take-All P (suc n) (x ∷ xs) h = (h.0, take-All P n xs h.1)

  pub take-Keyed : (n : ℕ) (xs : List A) → Keyed key xs → Keyed key (take n xs)
  take-Keyed zero xs u = tt
  take-Keyed (suc n) [] u = tt
  take-Keyed (suc n) (x ∷ xs) u =
      (take-All (λ y. (key y == key x) ≡ false) n xs u.0, take-Keyed n xs u.1)

  -- Distinct rows of a table that pass a test are no more than the table has.
  pub distinct_le-total :
      (p : A → Bool) (ys xs : List A)
      → Keyed key xs
      → Keyed key ys
      → All (λ y. Memᴰ y xs × (p y ≡ true)) ys
      → length ys ≤ total (λ x. one (p x)) xs
  distinct_le-total p [] xs u v h = omega arith
  distinct_le-total p (y ∷ ys) xs u v h =
      let (m, t) = h.0 in
      let left = drop key (key y) xs in
      let counted : one (p y) ≡ 1 = rw t refl in
      let stays : All (λ z. Memᴰ z left × (p z ≡ true)) ys = stay y ys v.0 h.1 in
      omega (
        arith,
        counted,
        total-drop key (λ x. one (p x)) y xs u m,
        distinct_le-total p ys left (drop-Keyed key (key y) xs u) v.1 stays,
      )
    where
      stay :
          (y : A) (zs : List A)
          → All (λ z. (key z == key y) ≡ false) zs
          → All (λ z. Memᴰ z xs × (p z ≡ true)) zs
          → All (λ z. Memᴰ z (drop key (key y) xs) × (p z ≡ true)) zs
      stay y [] d h = tt
      stay y (z ∷ zs) d h =
          let (m, t) = h.0 in
          let other : not (key z == key y) ≡ true = rw d.0 refl in
          ((Memᴰ-filter z (λ x. not (key x == key y)) xs m other, t), stay y zs d.1 h.1)

module _ {ℓ} {A : Type ℓ} where
  pub take-All_of {κ} : (P : A → Type κ) (n : ℕ) (xs : List A) → All P xs → All P (take n xs)
  take-All_of P zero xs h = tt
  take-All_of P (suc n) [] h = tt
  take-All_of P (suc n) (x ∷ xs) h = (h.0, take-All_of P n xs h.1)

  -- A batch that is not full is everything.
  pub take_short : (n : ℕ) (xs : List A) → length (take n xs) < n → take n xs ≡ xs
  take_short zero xs h = absurd (omega (arith, h))
  take_short (suc n) [] h = refl
  take_short (suc n) (x ∷ xs) h = ap (λ v. x ∷ v) (take_short n xs (omega (arith, h)))

  insert_new-Memᴰ : (le : A → A → Bool) (x : A) (xs : List A) → Memᴰ x (insert le x xs)
  unfolding insert
  insert_new-Memᴰ le x [] = Memᴰ.head refl
  insert_new-Memᴰ le x (y ∷ ys) = elim (Bool-cases (le x y)) [
    | inl e ↦ rw (e, if◌then◌else◌) (Memᴰ.head refl)
    | inr e ↦ rw (e, if◌then◌else◌) (Memᴰ.tail (insert_new-Memᴰ le x ys))
  ]

  insert-Memᴰ : (le : A → A → Bool) (z x : A) (xs : List A) → Memᴰ z xs → Memᴰ z (insert le x xs)
  unfolding insert
  insert-Memᴰ le z x [] m = elim m [ ]
  insert-Memᴰ le z x (y ∷ ys) (Memᴰ.head q) = elim (Bool-cases (le x y)) [
    | inl e ↦ rw (e, if◌then◌else◌) (Memᴰ.tail (Memᴰ.head q))
    | inr e ↦ rw (e, if◌then◌else◌) (Memᴰ.head q)
  ]
  insert-Memᴰ le z x (y ∷ ys) (Memᴰ.tail m) = elim (Bool-cases (le x y)) [
    | inl e ↦ rw (e, if◌then◌else◌) (Memᴰ.tail (Memᴰ.tail m))
    | inr e ↦ rw (e, if◌then◌else◌) (Memᴰ.tail (insert-Memᴰ le z x ys m))
  ]

  pub sort-Memᴰ : (le : A → A → Bool) (z : A) (xs : List A) → Memᴰ z xs → Memᴰ z (sort le xs)
  unfolding sort
  sort-Memᴰ le z [] m = elim m [ ]
  sort-Memᴰ le z (x ∷ xs) (Memᴰ.head e) =
      subst (λ v. Memᴰ v (insert le x (sort le xs))) (sym e) (insert_new-Memᴰ le x (sort le xs))
  sort-Memᴰ le z (x ∷ xs) (Memᴰ.tail m) = insert-Memᴰ le z x (sort le xs) (sort-Memᴰ le z xs m)
