-- ===== src/Files/Uploads.antt =====
-- What an upload leaves of its object and of its row.

use reconcileflow_ai.Prelude.{
  ℕ, ◌≡◌, ◌⊎◌, refl, sym, ap, ◌∙◌, inl, inr, none, some, [], ◌∷◌, ◌++◌, if◌then◌else◌, Text,
}
use reconcileflow_ai.Prelude.Int.{pos}
use reconcileflow_ai.Jobs.Records.{Run, RunStatus}
use reconcileflow_ai.Accounts.Records.{SourceType, ApiError}
use reconcileflow_ai.Accounts.Store.{Answer, answered, refused}
use reconcileflow_ai.Accounts.Answers.{bind_answered}
use reconcileflow_ai.Accounts.Tenants.{TenantContext}
use reconcileflow_ai.Files.Workspace.{SourceFile, Workspace, run_of_tenant, add_file}
use reconcileflow_ai.Files.Handlers.{
  StoredUpload, saved, is_pending, source_file, store_file, Handled, owning, upload_saved,
  upload_run, upload_source_file,
}
use reconcileflow_ai.Files.Metering.{apply_storage_delta_lem}
use reconcileflow_ai.Files.Accounting.{add_file_lem}

store_file-Memᴰ :
    (w w' : Workspace) (organization_id : ℕ) (f : SourceFile)
    → store_file w organization_id f ≡ answered w'
    → w'.files ≡ w.files ++ f ∷ []
unfolding store_file
store_file-Memᴰ w w' organization_id f h = bind_answered (add_file w f) _ _ h λ w₁ added h1.
    let (_, e₁) = add_file_lem w w₁ f added in
    let (_, _, _, _, e₂) = apply_storage_delta_lem w₁ w' organization_id (pos f.size_bytes) h1 in
    sym (ap (λ (v : Workspace). v.files) e₂) ∙ sym (ap (λ (v : Workspace). v.files) e₁)

-- An answered upload has added the file and deletes no object; a refused one has changed no table
-- and deletes the object.
abbrev pub AllOrNothing : Workspace → SourceFile → Text → Handled → Type 0
AllOrNothing w f key handled =
    ((handled.1 ≡ answered tt) × (handled.0.files ≡ w.files ++ f ∷ []) × (handled.2 ≡ none))
    ⊎ ((e : ApiError) × (handled.1 ≡ refused e) × (handled.0 ≡ w) × (handled.2 ≡ some key))

owning-AllOrNothing :
    (w : Workspace) (f : SourceFile) (key : Text) (m : Answer Workspace)
    → ((w' : Workspace) → m ≡ answered w' → w'.files ≡ w.files ++ f ∷ [])
    → AllOrNothing w f key (owning w key m)
unfolding owning
owning-AllOrNothing w f key (answered w') h = inl (refl, h w' refl, refl)
owning-AllOrNothing w f key (refused e) h = inr (e, refl, refl, refl)

-- When an upload for a pending run of the tenant has stored its object, it answers, its file is the
-- last row and no object is deleted, or it is refused, no table is changed and the object is deleted.
pub upload_keeps_AllOrNothing :
    (w : Workspace) (tenant : TenantContext) (run_id file_id : ℕ) (source_type : SourceType)
    (stored : StoredUpload) (run : Run)
    → run_of_tenant w run_id tenant.organization_id ≡ answered run
    → run.status ≡ RunStatus.pending
    → AllOrNothing w
        (source_file file_id run_id source_type stored)
        stored.storage_key
        (upload_source_file w tenant run_id file_id source_type (saved stored))
unfolding upload_source_file upload_run upload_saved is_pending
upload_keeps_AllOrNothing w tenant run_id file_id source_type stored run h p =
    let f : SourceFile = source_file file_id run_id source_type stored in
    rw (h, p, if◌then◌else◌)
      (owning-AllOrNothing w f stored.storage_key (store_file w tenant.organization_id f)
        (λ w' q. store_file-Memᴰ w w' tenant.organization_id f q))
