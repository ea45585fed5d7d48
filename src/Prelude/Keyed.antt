-- ===== src/Prelude/Keyed.antt =====
-- Tables as lists of rows with a key: the write of one row, sums over the rows, and what a write
-- changes of a sum.
use mathlib.Core.List.{Memᴰ}
use reconcileflow_ai.Prelude.{
  ℕ, ◌+◌, ◌≤◌, ◌≡◌, refl, sym, ap, ◌∙◌, inl, inr, Bool, true, false, List, [], ◌∷◌, ◌++◌, map,
  filter, not, arith, ◌==◌, if◌then◌else◌, Bool-cases, find?, some, All, All-append,
}
use reconcileflow_ai.Prelude.Members.{All_of}

-- 1 for true, to count by a sum.
abbrev pub one : Bool → ℕ
one true = 1
one false = 0

pub one_le : (b : Bool) → one b ≤ 1
one_le true = omega arith
one_le false = omega arith

module _ {ℓ} {A : Type ℓ} (weight : A → ℕ) where
  -- `sum(weight(x) for x in xs)`
  unfoldable pub total : List A → ℕ
  total [] = 0
  total (x ∷ xs) = weight x + total xs

  pub total-append : (xs ys : List A) → total (xs ++ ys) ≡ total xs + total ys
  unfolding total
  total-append [] ys = omega arith
  total-append (x ∷ xs) ys = omega (arith, total-append xs ys)

  pub total_one : (x : A) → total (x ∷ []) ≡ weight x
  unfolding total
  total_one x = omega arith

  pub total_of_Memᴰ : (x : A) (xs : List A) → Memᴰ x xs → weight x ≤ total xs
  unfolding total
  total_of_Memᴰ x [] m = elim m [ ]
  total_of_Memᴰ x (y ∷ xs) (Memᴰ.head e) = rw e (omega arith)
  total_of_Memᴰ x (y ∷ xs) (Memᴰ.tail m) = omega (arith, total_of_Memᴰ x xs m)

module _ {ℓ} {A : Type ℓ} (key : A → ℕ) where
  -- The write of a changed row, by its key.
  unfoldable pub put : A → List A → List A
  put row [] = []
  put row (x ∷ xs) = (if key x == key row then row else x) ∷ put row xs

  -- No two rows have the same key.
  abbrev pub Keyed : List A → Type 0
  Keyed [] = Unit
  Keyed (x ∷ xs) = All (λ y. (key y == key x) ≡ false) xs × Keyed xs

  pub put_absent :
      (row : A) (xs : List A) → All (λ y. (key y == key row) ≡ false) xs → put row xs ≡ xs
  unfolding put
  put_absent row [] h = refl
  put_absent row (x ∷ xs) h = rw (h.0, if◌then◌else◌, put_absent row xs h.1)

  -- The row that a test finds is found as it was written.
  pub find?-put :
      (p : A → Bool) (row r : A) (xs : List A)
      → p row ≡ true
      → key row ≡ key r
      → find? p xs ≡ some r
      → find? p (put row xs) ≡ some row
  unfolding find? put
  find?-put p row r [] t same h = absurd (cc)
  find?-put p row r (x ∷ xs) t same h = elim (Bool-cases (key x == key row)) [
    | inl e ↦ rw (e, if◌then◌else◌, t, if◌then◌else◌) refl
    | inr e ↦ elim (Bool-cases (p x)) [
      | inl px ↦
          let found : x ≡ r = ground arith in
          let kept : (key r == key row) ≡ false = rw found at e in absurd (ground arith)
      | inr px ↦
          let later : find? p xs ≡ some r = ground arith in
          rw (e, if◌then◌else◌, px, if◌then◌else◌) (find?-put p row r xs t same later)
    ]
  ]

  pub map-put : (row : A) (xs : List A) → map key (put row xs) ≡ map key xs
  unfolding put
  map-put row [] = refl
  map-put row (x ∷ xs) = elim (Bool-cases (key x == key row)) [
    | inl e ↦
        let same : key row ≡ key x = ground arith in rw (e, if◌then◌else◌, same, map-put row xs)
    | inr e ↦ rw (e, if◌then◌else◌, map-put row xs)
  ]

  pub put-All {κ} : (P : A → Type κ) (row : A) (xs : List A) → P row → All P xs → All P (put row xs)
  unfolding put
  put-All P row [] p h = tt
  put-All P row (x ∷ xs) p h = elim (Bool-cases (key x == key row)) [
    | inl e ↦ rw (e, if◌then◌else◌) (p, put-All P row xs p h.1)
    | inr e ↦ rw (e, if◌then◌else◌) (h.0, put-All P row xs p h.1)
  ]

  put_apart :
      (n : ℕ) (row : A) (xs : List A)
      → All (λ y. (key y == n) ≡ false) xs
      → All (λ y. (key y == n) ≡ false) (put row xs)
  unfolding put
  put_apart n row [] h = tt
  put_apart n row (x ∷ xs) h = elim (Bool-cases (key x == key row)) [
    | inl e ↦
        let same : (key row == n) ≡ false = ground arith in
        rw (e, if◌then◌else◌) (same, put_apart n row xs h.1)
    | inr e ↦ rw (e, if◌then◌else◌) (h.0, put_apart n row xs h.1)
  ]

  pub put-Keyed : (row : A) (xs : List A) → Keyed xs → Keyed (put row xs)
  unfolding put
  put-Keyed row [] u = tt
  put-Keyed row (x ∷ xs) u = elim (Bool-cases (key x == key row)) [
    | inl e ↦
        let same : key x ≡ key row = ground arith in
        rw (e, if◌then◌else◌) (put_apart (key row) row xs (rw same at (u.0)), put-Keyed row xs u.1)
    | inr e ↦ rw (e, if◌then◌else◌) (put_apart (key x) row xs u.0, put-Keyed row xs u.1)
  ]

  pub append-Keyed :
      (xs : List A) (row : A)
      → Keyed xs
      → All (λ y. (key y == key row) ≡ false) xs
      → Keyed (xs ++ row ∷ [])
  append-Keyed [] row u h = (tt, tt)
  append-Keyed (x ∷ xs) row u h = (
    All-append (λ y. (key y == key x) ≡ false) xs (row ∷ []) u.0 (ground arith, tt),
    append-Keyed xs row u.1 h.1,
  )

  -- What the rows with another key have, and the written row has.
  pub put-All_but {κ μ} :
      (Q : A → Type κ) (P : A → Type μ) (row : A) (xs : List A)
      → P row
      → ((x : A) → (key x == key row) ≡ false → Q x → P x)
      → All Q xs
      → All P (put row xs)
  unfolding put
  put-All_but Q P row [] p k h = tt
  put-All_but Q P row (x ∷ xs) p k h = elim (Bool-cases (key x == key row)) [
    | inl e ↦ rw (e, if◌then◌else◌) (p, put-All_but Q P row xs p k h.1)
    | inr e ↦ rw (e, if◌then◌else◌) (k x e h.0, put-All_but Q P row xs p k h.1)
  ]

  -- The rows without those of a key.
  abbrev pub drop : ℕ → List A → List A
  drop n xs = filter (λ x. not (key x == n)) xs

  drop_absent : (n : ℕ) (xs : List A) → All (λ x. (key x == n) ≡ false) xs → drop n xs ≡ xs
  unfolding filter
  drop_absent n [] h = refl
  drop_absent n (x ∷ xs) h = rw (h.0, if◌then◌else◌, drop_absent n xs h.1) refl

  drop_apart :
      (k n : ℕ) (xs : List A)
      → All (λ x. (key x == k) ≡ false) xs
      → All (λ x. (key x == k) ≡ false) (drop n xs)
  unfolding filter
  drop_apart k n [] h = tt
  drop_apart k n (x ∷ xs) h = elim (Bool-cases (key x == n)) [
    | inl e ↦ rw (e, if◌then◌else◌) (drop_apart k n xs h.1)
    | inr e ↦ rw (e, if◌then◌else◌) (h.0, drop_apart k n xs h.1)
  ]

  pub drop-Keyed : (n : ℕ) (xs : List A) → Keyed xs → Keyed (drop n xs)
  unfolding filter
  drop-Keyed n [] u = tt
  drop-Keyed n (x ∷ xs) u = elim (Bool-cases (key x == n)) [
    | inl e ↦ rw (e, if◌then◌else◌) (drop-Keyed n xs u.1)
    | inr e ↦ rw (e, if◌then◌else◌) (drop_apart (key x) n xs u.0, drop-Keyed n xs u.1)
  ]

  pub total-drop :
      (weight : A → ℕ) (x : A) (xs : List A)
      → Keyed xs
      → Memᴰ x xs
      → total weight (drop (key x) xs) + weight x ≡ total weight xs
  unfolding filter total
  total-drop weight x [] u m = elim m [ ]
  total-drop weight x (y ∷ xs) u (Memᴰ.head e) =
      let k : key x ≡ key y = ap key e in
      let w : weight x ≡ weight y = ap weight e in
      let same : (key y == key x) ≡ true = ground arith in
      rw (same, if◌then◌else◌, drop_absent (key x) xs (rw k u.0)) (omega (arith, w))
  total-drop weight x (y ∷ xs) u (Memᴰ.tail m) =
      let apart = All_of (λ z. (key z == key y) ≡ false) x xs u.0 m in
      let other : (key y == key x) ≡ false = ground arith in
      rw (other, if◌then◌else◌) (omega (arith, total-drop weight x xs u.1 m))

  -- Rows with another key stay.
  pub put-Memᴰ :
      (x row : A) (xs : List A) → Memᴰ x xs → (key x == key row) ≡ false → Memᴰ x (put row xs)
  unfolding put
  put-Memᴰ x row [] m h = elim m [ ]
  put-Memᴰ x row (y ∷ xs) (Memᴰ.head e) h =
      let other : (key y == key row) ≡ false = rw e at h in rw (other, if◌then◌else◌) (Memᴰ.head e)
  put-Memᴰ x row (y ∷ xs) (Memᴰ.tail m) h = Memᴰ.tail (put-Memᴰ x row xs m h)

  pub put_is-Memᴰ :
      (old row : A) (xs : List A) → Memᴰ old xs → key row ≡ key old → Memᴰ row (put row xs)
  unfolding put
  put_is-Memᴰ old row [] m h = elim m [ ]
  put_is-Memᴰ old row (y ∷ xs) (Memᴰ.head e) h =
      let same : (key y == key row) ≡ true = let k : key old ≡ key y = ap key e in ground arith in
      rw (same, if◌then◌else◌) (Memᴰ.head refl)
  put_is-Memᴰ old row (y ∷ xs) (Memᴰ.tail m) h = Memᴰ.tail (put_is-Memᴰ old row xs m h)

  -- A key names one row.
  pub same_row : (x y : A) (xs : List A) → Keyed xs → Memᴰ x xs → Memᴰ y xs → key x ≡ key y → x ≡ y
  same_row x y [] u m n h = elim m [ ]
  same_row x y (z ∷ xs) u (Memᴰ.head e) (Memᴰ.head e') h = e ∙ sym e'
  same_row x y (z ∷ xs) u (Memᴰ.head e) (Memᴰ.tail n) h =
      let apart = All_of (λ w. (key w == key z) ≡ false) y xs u.0 n in
      let k : key x ≡ key z = ap key e in absurd (ground arith)
  same_row x y (z ∷ xs) u (Memᴰ.tail m) (Memᴰ.head e') h =
      let apart = All_of (λ w. (key w == key z) ≡ false) x xs u.0 m in
      let k : key y ≡ key z = ap key e' in absurd (ground arith)
  same_row x y (z ∷ xs) u (Memᴰ.tail m) (Memᴰ.tail n) h = same_row x y xs u.1 m n h

-- The write of a row moves a sum by the difference of the two rows.
pub total-put {ℓ} :
    {A : Type ℓ} (weight key : A → ℕ) (old row : A) (xs : List A)
    → Keyed key xs
    → Memᴰ old xs
    → key row ≡ key old
    → total weight (put key row xs) + weight old ≡ total weight xs + weight row
unfolding total put
total-put weight key old row [] u m h = elim m [ ]
total-put weight key old row (x ∷ xs) u (Memᴰ.head e) h =
    let k : key old ≡ key x = ap key e in
    let w : weight old ≡ weight x = ap weight e in
    let same : (key x == key row) ≡ true = ground arith in
    let here : key row ≡ key x = h ∙ k in
    rw (same, if◌then◌else◌, put_absent key row xs (rw here u.0)) (omega arith)
total-put weight key old row (x ∷ xs) u (Memᴰ.tail m) h =
    let apart = All_of (λ y. (key y == key x) ≡ false) old xs u.0 m in
    let other : (key x == key row) ≡ false = ground arith in
    rw (other, if◌then◌else◌) (omega (arith, total-put weight key old row xs u.1 m h))

-- Rows that count for nothing leave a sum where it is.
pub total_of_zero {ℓ} :
    {A : Type ℓ} (weight : A → ℕ) (xs : List A) → All (λ x. weight x ≡ 0) xs → total weight xs ≡ 0
unfolding total
total_of_zero weight [] h = refl
total_of_zero weight (x ∷ xs) h = omega (arith, total_of_zero weight xs h.1)
