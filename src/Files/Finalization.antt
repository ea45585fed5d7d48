-- ===== src/Files/Finalization.antt =====
-- backend/src/reconcileflow/api/routes/files.py, `finalize_direct_upload`: an object that a client has
-- put into the storage becomes a source file. What the storage answers is an argument.
pub mod Storage
use reconcileflow_ai.Prelude.{
  ℕ, Bool, true, false, not, ◌&&◌, ◌||◌, Option, none, some, List, [], ◌∷◌, if◌then◌else◌, ◌==◌,
  ltb, Text, text_eq,
}
use reconcileflow_ai.Jobs.Records.{Run}
use reconcileflow_ai.Accounts.Records.{
  SourceType, SecurityEventType, SecurityDetails, ApiError, run_not_pending, file_not_found,
  storage_unavailable, file_already_finalized, file_metadata_mismatch, file_validation_failed,
}
use reconcileflow_ai.Accounts.Store.{
  Answer, answered, refused, ◌>>=◌, ◌>>◌, refuse_if, append_security,
}
use reconcileflow_ai.Accounts.Tenants.{TenantContext}
use reconcileflow_ai.Files.Workspace.{
  SourceFile, Workspace, same_source, run_of_tenant, find_by_storage_key,
}
use reconcileflow_ai.Files.Handlers.{
  StoredUpload, Saved, saved, storage_failed, Belonging, inside, outside, malformed_key, is_pending,
  source_file, store_file, Handled, owning,
}

-- `DirectUploadFinalizationRequest`
pub record Finalization : Type 0 where
  pub storage_key : Text
  pub source_type : SourceType
  pub original_filename : Text
  pub content_type : Text
  pub checksum_sha256 : Text
  pub size_bytes : ℕ

-- `StorageObjectMetadata`
pub record ObjectMetadata : Type 0 where
  pub size_bytes : ℕ
  pub content_type : Option Text
  pub checksum_sha256 : Option Text

-- What the storage answers, or `StorageNotFoundError`, `StorageOperationError` or
-- `InvalidStorageKeyError`.
pub data Looked {ℓ} (A : Type ℓ) : Type ℓ where
  looked : A → Looked A
  missing unavailable invalid_key : Looked A

-- `given and given != expected`
unfoldable pub differs : Option Text → Text → Bool
differs none expected = false
differs (some []) expected = false
differs (some (c ∷ given)) expected = not (text_eq (c ∷ given) expected)

unfoldable pub metadata_mismatch : ℕ → Finalization → ObjectMetadata → Bool
unfolding differs
metadata_mismatch max_size_bytes payload metadata =
    not (metadata.size_bytes == payload.size_bytes)
    || ltb max_size_bytes metadata.size_bytes
    || differs metadata.content_type payload.content_type
    || differs metadata.checksum_sha256 payload.checksum_sha256

unfoldable pub inspection_fails : Finalization → StoredUpload → Bool
inspection_fails payload inspected =
    not (inspected.size_bytes == payload.size_bytes)
    || not (text_eq inspected.content_type payload.content_type)
    || not (text_eq inspected.checksum_sha256 payload.checksum_sha256)

abbrev pub finalized_event : Workspace → TenantContext → SourceFile → Workspace
finalized_event w tenant f = record w {
  accounts =
      append_security w.accounts tenant.organization_id tenant.user_id
        SecurityEventType.direct_upload_finalized
        (SecurityDetails.file_details f.id f.run_id f.source_type);
}

-- The row, its charge and its event.
unfoldable pub finalized : Workspace → TenantContext → SourceFile → Answer Workspace
finalized w tenant f = do
  w₁ ← store_file w tenant.organization_id f
  answered (finalized_event w₁ tenant f)

-- After the object is inspected.
unfoldable pub finalize_inspected :
    Workspace → TenantContext → ℕ → ℕ → Finalization → Looked Saved → Handled
unfolding inspection_fails finalized owning source_file
finalize_inspected w tenant run_id file_id payload (looked (saved inspected)) =
    if inspection_fails payload inspected
    then (w, refused file_validation_failed, some payload.storage_key)
    else owning w payload.storage_key (
        finalized w tenant (record (source_file file_id run_id payload.source_type inspected) {
          storage_key = some payload.storage_key;
        }))
finalize_inspected w tenant run_id file_id payload (looked storage_failed) =
    (w, refused storage_unavailable, none)
finalize_inspected w tenant run_id file_id payload (looked _) =
    (w, refused file_validation_failed, some payload.storage_key)
finalize_inspected w tenant run_id file_id payload missing = (w, refused file_not_found, none)
finalize_inspected w tenant run_id file_id payload unavailable =
    (w, refused storage_unavailable, none)
finalize_inspected w tenant run_id file_id payload invalid_key =
    (w, refused file_validation_failed, some payload.storage_key)

-- After the object is found to be new.
unfoldable pub finalize_owned :
    ℕ
    → Workspace
    → TenantContext
    → ℕ
    → ℕ
    → Finalization
    → Looked ObjectMetadata
    → Looked Saved
    → Handled
unfolding metadata_mismatch finalize_inspected
finalize_owned max_size_bytes w tenant run_id file_id payload (looked metadata) inspected =
    if metadata_mismatch max_size_bytes payload metadata
    then (w, refused file_metadata_mismatch, some payload.storage_key)
    else finalize_inspected w tenant run_id file_id payload inspected
finalize_owned max_size_bytes w tenant run_id file_id payload missing inspected =
    (w, refused file_not_found, none)
finalize_owned max_size_bytes w tenant run_id file_id payload unavailable inspected =
    (w, refused storage_unavailable, none)
finalize_owned max_size_bytes w tenant run_id file_id payload invalid_key inspected =
    (w, refused file_validation_failed, some payload.storage_key)

-- After the look for a file with the object's key.
unfoldable pub finalize_new :
    ℕ
    → Workspace
    → TenantContext
    → ℕ
    → ℕ
    → Finalization
    → Option SourceFile
    → Looked ObjectMetadata
    → Looked Saved
    → Handled
unfolding finalize_owned same_source
finalize_new max_size_bytes w tenant run_id file_id payload (some existing) metadata inspected =
    if existing.run_id == run_id && same_source existing.source_type payload.source_type
    then (w, answered tt, none)
    else (w, refused file_already_finalized, none)
finalize_new max_size_bytes w tenant run_id file_id payload none metadata inspected =
    finalize_owned max_size_bytes w tenant run_id file_id payload metadata inspected

-- After the look for the run.
unfoldable pub finalize_run :
    (Text → Belonging)
    → ℕ
    → Workspace
    → TenantContext
    → ℕ
    → ℕ
    → Finalization
    → Looked ObjectMetadata
    → Looked Saved
    → Answer Run
    → Handled
unfolding is_pending finalize_new
finalize_run belongs max_size_bytes w tenant run_id file_id payload metadata inspected (refused e) =
    (w, refused e, none)
finalize_run belongs max_size_bytes w tenant run_id file_id payload metadata inspected
      (answered run) =
    if not (is_pending run.status)
    then (w, refused run_not_pending, none)
    else elim (belongs payload.storage_key) [
      | malformed_key ↦ (w, refused file_validation_failed, none)
      | outside ↦ (w, refused file_not_found, none)
      | inside ↦
          finalize_new max_size_bytes w tenant run_id file_id payload
            (find_by_storage_key w payload.storage_key tenant.organization_id) metadata inspected
    ]

-- `finalize_direct_upload`, given how a key belongs to the tenant's namespace.
unfoldable pub finalize_direct_upload :
    (Text → Belonging)
    → ℕ
    → Workspace
    → TenantContext
    → ℕ
    → ℕ
    → Finalization
    → Looked ObjectMetadata
    → Looked Saved
    → Handled
unfolding finalize_run
finalize_direct_upload belongs max_size_bytes w tenant run_id file_id payload metadata inspected =
    finalize_run belongs max_size_bytes w tenant run_id file_id payload metadata inspected
      (run_of_tenant w run_id tenant.organization_id)
