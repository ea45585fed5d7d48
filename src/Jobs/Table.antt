-- ===== src/Jobs/Table.antt =====
-- The table of jobs under the writes of one record: primary keys, predicates of every row, and the
-- rows that a write leaves alone.
use mathlib.Core.List.{Memᴰ}
use reconcileflow_ai.Prelude.{
  ℕ, ◌≡◌, refl, sym, inl, inr, Bool, true, false, ◌&&◌, some, List, [], ◌∷◌, arith, find?, ◌==◌,
  if◌then◌else◌, Bool-cases, All, ap, ◌∙◌,
}
use reconcileflow_ai.Prelude.Members.{All_of}
use reconcileflow_ai.Jobs.Records.{Job}
use reconcileflow_ai.Jobs.Store.{Store, ok, get, put_job}

-- No two rows have the same key.
abbrev pub Unique : List Job → Type 0
Unique [] = Unit
Unique (j ∷ jobs) = All (λ k. (k.id == j.id) ≡ false) jobs × Unique jobs

-- A relation between the rows of two tables, place by place.
pub data Rows (R : Job → Job → Type 0) : List Job → List Job → Type 0 where
  no_rows : Rows R [] []
  row : (x y : Job) (xs ys : List Job) → R x y → Rows R xs ys → Rows R (x ∷ xs) (y ∷ ys)

pub find?-Memᴰ {ℓ} :
    {A : Type ℓ} (p : A → Bool) (a : A) (xs : List A)
    → find? p xs ≡ some a
    → Memᴰ a xs × (p a ≡ true)
unfolding find?
find?-Memᴰ p a [] h = absurd (cc)
find?-Memᴰ p a (x ∷ xs) h = elim (Bool-cases (p x)) [
  | inl e ↦ let same : x ≡ a = ground arith in (Memᴰ.head (sym same), rw same at e)
  | inr e ↦ let (m, t) = find?-Memᴰ p a xs (ground arith) in (Memᴰ.tail m, t)
]

pub get-Memᴰ :
    (s : Store) (job_id organization_id : ℕ) (job : Job)
    → get s job_id organization_id ≡ ok job
    → Memᴰ job s.jobs
unfolding get
get-Memᴰ s job_id organization_id job h =
    (find?-Memᴰ (λ j. j.id == job_id && j.organization_id == organization_id) job s.jobs
      (ground arith)).0

-- A write of an absent key changes nothing.
pub put_job_absent :
    (job : Job) (jobs : List Job)
    → All (λ k. (k.id == job.id) ≡ false) jobs
    → put_job job jobs ≡ jobs
unfolding put_job
put_job_absent job [] h = refl
put_job_absent job (j ∷ jobs) h = rw (h.0, if◌then◌else◌, put_job_absent job jobs h.1)

pub Rows-refl :
    (R : Job → Job → Type 0) → ((j : Job) → R j j) → (jobs : List Job) → Rows R jobs jobs
Rows-refl R same [] = Rows.no_rows
Rows-refl R same (j ∷ jobs) = Rows.row j j jobs jobs (same j) (Rows-refl R same jobs)

-- The write of one row's successor relates the tables row by row.
pub put_job-Rows :
    (R : Job → Job → Type 0)
    → ((j : Job) → R j j)
    → (job job' : Job) (jobs : List Job) → Unique jobs
    → Memᴰ job jobs
    → job'.id ≡ job.id
    → R job job'
    → Rows R jobs (put_job job' jobs)
unfolding put_job
put_job-Rows R same job job' [] u m e r = elim m [ ]
put_job-Rows R same job job' (j ∷ jobs) u (Memᴰ.head h) e r =
    let e' : job'.id ≡ j.id = e ∙ ap (λ k. k.id) h in
    let keyed : (j.id == job'.id) ≡ true = ground arith in
    rw (keyed, if◌then◌else◌, put_job_absent job' jobs (rw e' u.0))
      (Rows.row j job' jobs jobs (rw (sym h) r) (Rows-refl R same jobs))
put_job-Rows R same job job' (j ∷ jobs) u (Memᴰ.tail h) e r =
    let other = All_of (λ k. (k.id == j.id) ≡ false) job jobs u.0 h in
    let keyed : (j.id == job'.id) ≡ false = ground arith in
    rw (keyed, if◌then◌else◌)
      (Rows.row j j jobs (put_job job' jobs) (same j) (put_job-Rows R same job job' jobs u.1 h e r))

-- What becomes of one row.
pub Rows-Memᴰ :
    (R : Job → Job → Type 0) (x : Job) (xs ys : List Job)
    → Rows R xs ys
    → Memᴰ x xs
    → (y : Job) × Memᴰ y ys × R x y
Rows-Memᴰ R x _ _ Rows.no_rows m = elim m [ ]
Rows-Memᴰ R x _ _ (Rows.row a b xs ys r rows) (Memᴰ.head h) = (b, Memᴰ.head refl, rw h r)
Rows-Memᴰ R x _ _ (Rows.row a b xs ys r rows) (Memᴰ.tail m) =
    let (y, here, s) = Rows-Memᴰ R x xs ys rows m in (y, Memᴰ.tail here, s)

pub Rows-All {κ} :
    (R : Job → Job → Type 0) (P : Job → Type κ) (xs ys : List Job)
    → ((x y : Job) → R x y → P x → P y)
    → Rows R xs ys
    → All P xs
    → All P ys
Rows-All R P _ _ f Rows.no_rows h = tt
Rows-All R P _ _ f (Rows.row x y xs ys r rows) h = (f x y r h.0, Rows-All R P xs ys f rows h.1)

Rows-apart :
    (R : Job → Job → Type 0) (n : ℕ) (xs ys : List Job)
    → ((x y : Job) → R x y → y.id ≡ x.id)
    → Rows R xs ys
    → All (λ k. (k.id == n) ≡ false) xs
    → All (λ k. (k.id == n) ≡ false) ys
Rows-apart R n xs ys f = Rows-All R (λ k. (k.id == n) ≡ false) xs ys (λ x y r h. rw (f x y r) h)

-- Rows that keep their keys keep them unique.
pub Rows-Unique :
    (R : Job → Job → Type 0) (xs ys : List Job)
    → ((x y : Job) → R x y → y.id ≡ x.id)
    → Rows R xs ys
    → Unique xs
    → Unique ys
Rows-Unique R _ _ f Rows.no_rows u = tt
Rows-Unique R _ _ f (Rows.row x y xs ys r rows) u =
    (rw (f x y r) (Rows-apart R x.id xs ys f rows u.0), Rows-Unique R xs ys f rows u.1)
