-- ===== src/Files/Metering.antt =====
-- The storage that an organization uses, and the sizes of its files.
use mathlib.Core.List.{Memᴰ}
use reconcileflow_ai.Prelude.{
  ℕ, ◌≡◌, refl, ap, inl, inr, Bool, true, false, ◌&&◌, List, [], ◌∷◌, any, if◌then◌else◌, ◌==◌,
  Bool-cases, All, arith,
}
use reconcileflow_ai.Prelude.Int.{ℤ}
use reconcileflow_ai.Prelude.Keyed.{total, Keyed, same_row}
use reconcileflow_ai.Jobs.Table.{find?-Memᴰ}
use reconcileflow_ai.Jobs.Records.{Run}
use reconcileflow_ai.Accounts.Records.{Organization, record_not_found}
use reconcileflow_ai.Accounts.Store.{answered, or_refuse, find_organization}
use reconcileflow_ai.Accounts.Answers.{bind_answered, unless, or_refuse-some}
use reconcileflow_ai.Files.Workspace.{
  SourceFile, Workspace, run_in, run_of_tenant, storage_after, over_quota, apply_storage_delta,
  put_organization,
}

-- The size of a file that is charged to an organization.
unfoldable pub charge : List Run → ℕ → SourceFile → ℕ
charge runs organization_id f = if run_in runs f.run_id organization_id then f.size_bytes else 0

abbrev pub organization_key : Organization → ℕ
organization_key o = o.id

abbrev pub file_key : SourceFile → ℕ
file_key f = f.id

abbrev pub run_key : Run → ℕ
run_key r = r.id

abbrev pub Charged : List Run → List SourceFile → Organization → Type 0
Charged runs files o =
    (o.storage_used_bytes ≡ total (charge runs o.id) files)
    × (over_quota o.storage_quota_bytes o.storage_used_bytes ≡ false)

-- The keys of organizations, files and runs name one row each, and every organization's counter is
-- the sum of the sizes of its files and within its quota.
abbrev pub Metered : Workspace → Type 0
Metered w =
    Keyed organization_key w.accounts.organizations
    × Keyed file_key w.files
    × Keyed run_key w.queue.runs
    × All (Charged w.queue.runs w.files) w.accounts.organizations

pub any_some {ℓ} :
    {A : Type ℓ} (p : A → Bool) (xs : List A) → any p xs ≡ true → (x : A) × Memᴰ x xs × (p x ≡ true)
unfolding any
any_some p [] h = absurd (cc)
any_some p (x ∷ xs) h = elim (Bool-cases (p x)) [
  | inl e ↦ (x, Memᴰ.head refl, e)
  | inr e ↦ let (y, m, t) = any_some p xs (ground arith) in (y, Memᴰ.tail m, t)
]

pub any_of {ℓ} :
    {A : Type ℓ} (p : A → Bool) (x : A) (xs : List A) → Memᴰ x xs → p x ≡ true → any p xs ≡ true
unfolding any
any_of p x [] m h = elim m [ ]
any_of p x (y ∷ xs) (Memᴰ.head e) h = rw (rw e at h) refl
any_of p x (y ∷ xs) (Memᴰ.tail m) h = rw (any_of p x xs m h) (ground arith)

-- A run belongs to one organization.
pub run_in_one :
    (runs : List Run) (run_id o o' : ℕ)
    → Keyed run_key runs
    → run_in runs run_id o ≡ true
    → (o' == o) ≡ false
    → run_in runs run_id o' ≡ false
unfolding run_in
run_in_one runs run_id o o' u h d =
    elim (Bool-cases (any (λ r. r.id == run_id && r.organization_id == o') runs)) [
      | inr e ↦ e
      | inl e ↦
          let (r, m, t) = any_some (λ r. r.id == run_id && r.organization_id == o) runs h in
          let (r', m', t') = any_some (λ r. r.id == run_id && r.organization_id == o') runs e in
          let k : r.id ≡ r'.id = ground arith in
          let same : r ≡ r' = same_row run_key r r' runs u m m' k in
          let owner : r.organization_id ≡ r'.organization_id =
            ap (λ (x : Run). x.organization_id) same in
          absurd (ground arith)
    ]

pub run_of_tenant-run_in :
    (w : Workspace) (run_id o : ℕ) (run : Run)
    → run_of_tenant w run_id o ≡ answered run
    → run_in w.queue.runs run_id o ≡ true
unfolding run_of_tenant run_in
run_of_tenant-run_in w run_id o run h =
    let p : Run → Bool = λ r. r.id == run_id && r.organization_id == o in
    let (m, t) = find?-Memᴰ p run w.queue.runs (or_refuse-some _ record_not_found run h) in
    any_of p run w.queue.runs m t

pub charge_in :
    (runs : List Run) (o : ℕ) (f : SourceFile)
    → run_in runs f.run_id o ≡ true
    → charge runs o f ≡ f.size_bytes
unfolding charge
charge_in runs o f h = rw (h, if◌then◌else◌) refl

pub charge_out :
    (runs : List Run) (o : ℕ) (f : SourceFile)
    → run_in runs f.run_id o ≡ false
    → charge runs o f ≡ 0
unfolding charge
charge_out runs o f h = rw (h, if◌then◌else◌) refl

-- What a charge writes.
pub apply_storage_delta_lem :
    (w w' : Workspace) (organization_id : ℕ) (delta : ℤ)
    → apply_storage_delta w organization_id delta ≡ answered w'
    → (o : Organization) × Memᴰ o w.accounts.organizations
      × (o.id ≡ organization_id)
      × (over_quota o.storage_quota_bytes (storage_after o.storage_used_bytes delta) ≡ false)
      × (put_organization w
            (record o { storage_used_bytes = storage_after o.storage_used_bytes delta })
          ≡ w')
unfolding apply_storage_delta find_organization
apply_storage_delta_lem w w' organization_id delta h =
    bind_answered (or_refuse (find_organization w.accounts organization_id) record_not_found) _ _ h
      λ o found h1.
        let (m, t) =
          find?-Memᴰ (λ (x : Organization). x.id == organization_id) o w.accounts.organizations
            (or_refuse-some _ record_not_found o found) in
        unless (over_quota o.storage_quota_bytes (storage_after o.storage_used_bytes delta)) _ _ _
          h1 λ within h2. (o, m, ground arith, within, cc)
