-- ===== src/Files/Accounting.antt =====
-- The storage counters and the sizes of the files, under the writes of the handlers.
use mathlib.Core.List.{Memᴰ}
use reconcileflow_ai.Prelude.{
  ℕ, ◌+◌, ◌-◌, ◌≡◌, refl, sym, ap, ◌∙◌, subst, inl, inr, true, false, ◌&&◌, some, List, [], ◌∷◌,
  ◌++◌, any, if◌then◌else◌, ◌==◌, leb, Bool-cases, All, arith, Text,
}
use reconcileflow_ai.Prelude.Int.{pos, sub_ℕ}
use reconcileflow_ai.Prelude.Members.{All_of}
use reconcileflow_ai.Prelude.Keyed.{
  total, total-append, total_one, put, put-All_but, put-Keyed, append-Keyed, drop, drop-Keyed,
  total-drop,
}
use reconcileflow_ai.Jobs.Table.{find?-Memᴰ}
use reconcileflow_ai.Accounts.Records.{Organization}
use reconcileflow_ai.Accounts.Store.{Answer, answered, refused}
use reconcileflow_ai.Accounts.Answers.{bind_answered, unless, any-false}
use reconcileflow_ai.Files.Workspace.{
  SourceFile, Workspace, same_source, run_in, add_file, find_file, remove_file, storage_after,
  over_quota, apply_storage_delta,
}
use reconcileflow_ai.Files.Handlers.{store_file, deleted_file, deleted_event, owning, rolled_back}
use reconcileflow_ai.Accounts.Tenants.{TenantContext}
use reconcileflow_ai.Files.Metering.{
  charge, organization_key, file_key, Charged, Metered, run_in_one, charge_in, charge_out,
  apply_storage_delta_lem,
}

pub add_file_lem :
    (w w' : Workspace) (f : SourceFile)
    → add_file w f ≡ answered w'
    → All (λ x. (x.id == f.id) ≡ false) w.files × (record w { files = w.files ++ f ∷ [] } ≡ w')
unfolding add_file
add_file_lem w w' f h =
    unless (any (λ x. x.run_id == f.run_id && same_source x.source_type f.source_type) w.files) _ _
      _ h
      λ new h1.
        unless (any (λ x. x.id == f.id) w.files) _ _ _ h1
          λ absent h2. (any-false _ w.files absent, cc)

-- The counters of all organizations after one organization's was moved with its files.
moved-Charged :
    (w : Workspace) (files : List SourceFile) (o : Organization) (used : ℕ)
    → All (Charged w.queue.runs w.files) w.accounts.organizations
    → used ≡ total (charge w.queue.runs o.id) files
    → over_quota o.storage_quota_bytes used ≡ false
    → ((n : ℕ)
        → (n == o.id) ≡ false
        → total (charge w.queue.runs n) files ≡ total (charge w.queue.runs n) w.files)
    → All
        (Charged w.queue.runs files)
        (put organization_key (record o { storage_used_bytes = used }) w.accounts.organizations)
moved-Charged w files o used h e within others =
    put-All_but organization_key (Charged w.queue.runs w.files) (Charged w.queue.runs files)
      (record o { storage_used_bytes = used }) w.accounts.organizations (e, within)
      (λ x d c. (c.0 ∙ sym (others x.id d), c.1)) h

-- A file that is stored is charged to its run's organization.
pub store_file-Metered :
    (w w' : Workspace) (organization_id : ℕ) (f : SourceFile)
    → run_in w.queue.runs f.run_id organization_id ≡ true
    → store_file w organization_id f ≡ answered w'
    → Metered w
    → Metered w'
unfolding store_file storage_after
store_file-Metered w w' organization_id f belongs h (uo, uf, ur, cs) =
    bind_answered (add_file w f) _ _ h λ w₁ added h1.
      let (absent, e₁) = add_file_lem w w₁ f added in
      let w₂ : Workspace = record w { files = w.files ++ f ∷ [] } in
      let h2 : apply_storage_delta w₂ organization_id (pos f.size_bytes) ≡ answered w' = rw e₁ h1 in
      let (o, m, k, within, e₂) =
        apply_storage_delta_lem w₂ w' organization_id (pos f.size_bytes) h2 in
      let own : run_in w.queue.runs f.run_id o.id ≡ true = rw k belongs in
      let before : Charged w.queue.runs w.files o =
        All_of (Charged w.queue.runs w.files) o w.accounts.organizations cs m in
      let sums : (n : ℕ)
          → total (charge w.queue.runs n) w₂.files
            ≡ total (charge w.queue.runs n) w.files + charge w.queue.runs n f =
        λ n.
          total-append (charge w.queue.runs n) w.files (f ∷ [])
          ∙ ap (λ v. total (charge w.queue.runs n) w.files + v)
              (total_one (charge w.queue.runs n) f) in
      subst Metered e₂ (
        put-Keyed organization_key _ w.accounts.organizations uo,
        append-Keyed file_key w.files f uf absent,
        ur,
        moved-Charged w w₂.files o (o.storage_used_bytes + f.size_bytes) cs
            (omega (arith, before.0, sums o.id, charge_in w.queue.runs o.id f own)) within
            (λ n d. omega (
              arith,
              sums n,
              charge_out w.queue.runs n f (run_in_one w.queue.runs f.run_id o.id n ur own d),
            )),
      )

pub find_file_lem :
    (w : Workspace) (file_id organization_id : ℕ) (f : SourceFile)
    → find_file w file_id organization_id ≡ some f
    → Memᴰ f w.files × (run_in w.queue.runs f.run_id organization_id ≡ true)
unfolding find_file
find_file_lem w file_id organization_id f h =
    let (m, t) =
      find?-Memᴰ (λ x. x.id == file_id && run_in w.queue.runs x.run_id organization_id) f w.files
        h in
    (m, ground arith)

storage_after_less : (used n : ℕ) → storage_after used (sub_ℕ 0 n) ≡ used - n
unfolding storage_after
storage_after_less used n = elim (Bool-cases (leb n 0)) [
  | inl e ↦ rw (e, if◌then◌else◌) (ground arith)
  | inr e ↦ rw (e, if◌then◌else◌) (ground arith)
]

-- A file that is deleted is no longer charged.
pub deleted_file-Metered :
    (w w' : Workspace) (tenant : TenantContext) (f : SourceFile)
    → Memᴰ f w.files
    → run_in w.queue.runs f.run_id tenant.organization_id ≡ true
    → deleted_file w tenant f ≡ answered w'
    → Metered w
    → Metered w'
unfolding deleted_file remove_file
deleted_file-Metered w w' tenant f here belongs h (uo, uf, ur, cs) =
    let w₁ : Workspace = record w { files = drop file_key f.id w.files } in
    bind_answered (apply_storage_delta w₁ tenant.organization_id (sub_ℕ 0 f.size_bytes)) _ _ h
      λ w₂ charged h1.
        let (o, m, k, within, e₂) =
          apply_storage_delta_lem w₁ w₂ tenant.organization_id (sub_ℕ 0 f.size_bytes) charged in
        let own : run_in w.queue.runs f.run_id o.id ≡ true = rw k belongs in
        let before : Charged w.queue.runs w.files o =
          All_of (Charged w.queue.runs w.files) o w.accounts.organizations cs m in
        let sums : (n : ℕ)
            → total (charge w.queue.runs n) w₁.files + charge w.queue.runs n f
              ≡ total (charge w.queue.runs n) w.files =
          λ n. total-drop file_key (charge w.queue.runs n) f w.files uf here in
        let less = storage_after_less o.storage_used_bytes f.size_bytes in
        let kept : Metered w₂ = subst Metered e₂ (
          put-Keyed organization_key _ w.accounts.organizations uo,
          drop-Keyed file_key f.id w.files uf,
          ur,
          moved-Charged w w₁.files o (storage_after o.storage_used_bytes (sub_ℕ 0 f.size_bytes)) cs
              (omega (arith, before.0, sums o.id, less, charge_in w.queue.runs o.id f own)) within
              (λ n d. omega (
                arith,
                sums n,
                charge_out w.queue.runs n f (run_in_one w.queue.runs f.run_id o.id n ur own d),
              )),
        ) in
        let moved : deleted_event w₂ tenant f ≡ w' = cc in subst Metered moved kept

pub owning-Metered :
    (w : Workspace) (key : Text) (m : Answer Workspace)
    → Metered w
    → ((w' : Workspace) → m ≡ answered w' → Metered w')
    → Metered (owning w key m).0
unfolding owning
owning-Metered w key (answered w') h k = k w' refl
owning-Metered w key (refused e) h k = h

pub rolled_back-Metered :
    (w : Workspace) (m : Answer Workspace)
    → Metered w
    → ((w' : Workspace) → m ≡ answered w' → Metered w')
    → Metered (rolled_back w m).0
unfolding rolled_back
rolled_back-Metered w (answered w') h k = k w' refl
rolled_back-Metered w (refused e) h k = h
