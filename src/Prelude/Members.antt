-- ===== src/Prelude/Members.antt =====
-- Membership with its place, and predicates of every element, through filters.
use mathlib.Core.List.{Memᴰ}
use mathlib.Core.List.Memᴰ
use reconcileflow_ai.Prelude.{
  ◌≡◌, inl, inr, Bool, true, List, [], ◌∷◌, ◌++◌, refl, filter, All, Bool-cases, subst, sym,
}

module _ {ℓ} {A : Type ℓ} where
  pub Memᴰ-filter :
      (a : A) (p : A → Bool) (xs : List A) → Memᴰ a xs → p a ≡ true → Memᴰ a (filter p xs)
  unfolding filter
  Memᴰ-filter a p [] m h = elim m [ ]
  Memᴰ-filter a p (x ∷ xs) (Memᴰ.head e) h = rw (rw e at h, filter) (Memᴰ.head e)
  Memᴰ-filter a p (x ∷ xs) (Memᴰ.tail m) h = elim (Bool-cases (p x)) [
    | inl kept ↦ rw (kept, filter) (Memᴰ.tail (Memᴰ-filter a p xs m h))
    | inr dropped ↦ rw (dropped, filter) (Memᴰ-filter a p xs m h)
  ]

  pub filter-Memᴰ :
      (a : A) (p : A → Bool) (xs : List A) → Memᴰ a (filter p xs) → Memᴰ a xs × (p a ≡ true)
  unfolding filter
  filter-Memᴰ a p [] m = elim m [ ]
  filter-Memᴰ a p (x ∷ xs) m = elim (Bool-cases (p x)) [
    | inl kept ↦ elim (Memᴰ.cases_cons (rw (kept, filter) at m)) [
      | inl e ↦ (Memᴰ.head e, rw e kept)
      | inr m' ↦ let (here, h) = filter-Memᴰ a p xs m' in (Memᴰ.tail here, h)
    ]
    | inr dropped ↦
        let (here, h) = filter-Memᴰ a p xs (rw (dropped, filter) at m) in (Memᴰ.tail here, h)
  ]

  pub All_of {κ} : (P : A → Type κ) (a : A) (xs : List A) → All P xs → Memᴰ a xs → P a
  All_of P a [] h m = elim m [ ]
  All_of P a (x ∷ xs) h (Memᴰ.head e) = subst P (sym e) h.0
  All_of P a (x ∷ xs) h (Memᴰ.tail m) = All_of P a xs h.1 m

  pub All-filter {κ} :
      (P : A → Type κ) (p : A → Bool) (xs : List A)
      → All P xs
      → All (λ a. P a × (p a ≡ true)) (filter p xs)
  unfolding filter
  All-filter P p [] h = tt
  All-filter P p (a ∷ xs) h = elim (Bool-cases (p a)) [
    | inl e ↦ rw (e, filter) ((h.0, e), All-filter P p xs h.1)
    | inr e ↦ rw (e, filter) (All-filter P p xs h.1)
  ]

  pub All-map_of {κ μ} :
      (P : A → Type κ) (Q : A → Type μ)
      → ((a : A) → P a → Q a)
      → (xs : List A) → All P xs
      → All Q xs
  All-map_of P Q f [] h = tt
  All-map_of P Q f (x ∷ xs) h = (f x h.0, All-map_of P Q f xs h.1)

  -- What holds of every element holds of those that a filter keeps.
  pub All-kept {κ} : (P : A → Type κ) (p : A → Bool) (xs : List A) → All P xs → All P (filter p xs)
  All-kept P p xs h =
      All-map_of (λ a. P a × (p a ≡ true)) P (λ a (q, _). q) (filter p xs) (All-filter P p xs h)

  pub Memᴰ-append : {a : A} {xs : List A} (ys : List A) → Memᴰ a xs → Memᴰ a (xs ++ ys)
  Memᴰ-append {xs = []} ys m = elim m [ ]
  Memᴰ-append {xs = x ∷ xs} ys (Memᴰ.head e) = Memᴰ.head e
  Memᴰ-append {xs = x ∷ xs} ys (Memᴰ.tail m) = Memᴰ.tail (Memᴰ-append ys m)

  pub append-Memᴰ : (a : A) (xs : List A) → Memᴰ a (xs ++ a ∷ [])
  append-Memᴰ a [] = Memᴰ.head refl
  append-Memᴰ a (x ∷ xs) = Memᴰ.tail (append-Memᴰ a xs)
