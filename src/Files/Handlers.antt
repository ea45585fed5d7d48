-- ===== src/Files/Handlers.antt =====
-- backend/src/reconcileflow/api/routes/files.py: upload, deletion and finalization of a source file, and
-- backend/src/reconcileflow/api/routes/organizations.py `update_organization` and
-- `update_storage_quota`. The object storage is a parameter: what its calls answer is an argument, and
-- a handler names the object that it deletes. A deletion that fails where a handler cleans up after an
-- error is not modelled. An error that no handler turns into an answer is `internal_error`.
use reconcileflow_ai.Prelude.{
  ℕ, Bool, true, false, not, ◌||◌, Option, none, some, if◌then◌else◌, Text, [], ◌∷◌,
}
use reconcileflow_ai.Prelude.Int.{pos, sub_ℕ}
use reconcileflow_ai.Jobs.Records.{Job, JobStatus, Run, RunStatus}
use reconcileflow_ai.Accounts.Records.{
  Organization, SourceType, SecurityEventType, SecurityDetails, ApiError, run_not_pending,
  empty_file, file_too_large, unsupported_file, file_in_use, file_not_found, storage_unavailable,
  storage_quota_exceeded, record_not_found, storage_quota_below_usage, internal_error,
}
use reconcileflow_ai.Accounts.Store.{
  Answer, answered, refused, ◌>>=◌, ◌>>◌, refuse_if, or_refuse, find_organization, append_security,
}
use reconcileflow_ai.Accounts.Tenants.{TenantContext}
use reconcileflow_ai.Accounts.Membership.{ensure_selected}
use reconcileflow_ai.Files.Workspace.{
  SourceFile, Workspace, get_for_run, run_of_tenant, add_file, find_file, remove_file,
  apply_storage_delta, put_organization, update_storage_quota,
}

-- `StoredUpload`
pub record StoredUpload : Type 0 where
  pub storage_key : Text
  pub original_filename : Text
  pub content_type : Text
  pub size_bytes : ℕ
  pub checksum_sha256 : Text

-- What `storage.save` and `storage.inspect_materialized` do: an upload, or the error that they raise.
pub data Saved : Type 0 where
  saved : StoredUpload → Saved
  empty_upload upload_too_large unsupported_upload storage_failed : Saved

-- What `belongs_to_namespace` answers of a key, or `InvalidStorageKeyError`.
pub data Belonging : Type 0 where
  inside outside malformed_key : Belonging

unfoldable pub is_outside : Belonging → Bool
is_outside inside = false
is_outside outside = true
is_outside malformed_key = false

unfoldable pub is_malformed : Belonging → Bool
is_malformed inside = false
is_malformed outside = false
is_malformed malformed_key = true

unfoldable pub is_pending : RunStatus → Bool
is_pending RunStatus.pending = true
is_pending _ = false

-- `{"QUEUED", "RUNNING", "CANCEL_REQUESTED"}`
unfoldable pub is_active_status : JobStatus → Bool
is_active_status JobStatus.queued = true
is_active_status JobStatus.running = true
is_active_status JobStatus.cancel_requested = true
is_active_status _ = false

unfoldable pub source_file : ℕ → ℕ → SourceType → StoredUpload → SourceFile
source_file file_id run_id source_type stored = record {
  id = file_id;
  run_id = run_id;
  source_type = source_type;
  original_filename = stored.original_filename;
  content_type = some stored.content_type;
  checksum_sha256 = stored.checksum_sha256;
  size_bytes = stored.size_bytes;
  row_count = none;
  storage_key = some stored.storage_key;
}

-- The row is added, then its size is charged.
unfoldable pub store_file : Workspace → ℕ → SourceFile → Answer Workspace
store_file w organization_id f = do
  w₁ ← add_file w f
  apply_storage_delta w₁ organization_id (pos f.size_bytes)

-- The tables, the answer and the object that the handler deletes.
abbrev pub Handled : Type 0
Handled = Workspace × Answer (Unit {0}) × Option Text

-- The end of a handler that owns an object: an error rolls back and deletes it.
unfoldable pub owning : Workspace → Text → Answer Workspace → Handled
owning w storage_key (answered w') = (w', answered tt, none)
owning w storage_key (refused e) = (w, refused e, some storage_key)

-- The part of `upload_source_file` after the object is saved.
unfoldable pub upload_saved : Workspace → TenantContext → ℕ → ℕ → SourceType → Saved → Handled
unfolding owning store_file source_file
upload_saved w tenant run_id file_id source_type empty_upload = (w, refused empty_file, none)
upload_saved w tenant run_id file_id source_type upload_too_large =
    (w, refused file_too_large, none)
upload_saved w tenant run_id file_id source_type unsupported_upload =
    (w, refused unsupported_file, none)
upload_saved w tenant run_id file_id source_type storage_failed = (w, refused internal_error, none)
upload_saved w tenant run_id file_id source_type (saved stored) =
    owning w stored.storage_key
      (store_file w tenant.organization_id (source_file file_id run_id source_type stored))

-- After the look for the run.
unfoldable pub upload_run :
    Workspace → TenantContext → ℕ → ℕ → SourceType → Saved → Answer Run → Handled
unfolding upload_saved is_pending
upload_run w tenant run_id file_id source_type result (refused e) = (w, refused e, none)
upload_run w tenant run_id file_id source_type result (answered run) =
    if not (is_pending run.status)
    then (w, refused run_not_pending, none)
    else upload_saved w tenant run_id file_id source_type result

-- `upload_source_file`
unfoldable pub upload_source_file : Workspace → TenantContext → ℕ → ℕ → SourceType → Saved → Handled
unfolding upload_run
upload_source_file w tenant run_id file_id source_type result =
    upload_run w tenant run_id file_id source_type result
      (run_of_tenant w run_id tenant.organization_id)

-- `job is not None and job.status in {...}`
unfoldable pub in_use : Option Job → Bool
unfolding is_active_status
in_use none = false
in_use (some job) = is_active_status job.status

abbrev pub deleted_event : Workspace → TenantContext → SourceFile → Workspace
deleted_event w tenant f = record w {
  accounts =
      append_security w.accounts tenant.organization_id tenant.user_id
        SecurityEventType.source_file_deleted
        (SecurityDetails.file_details f.id f.run_id f.source_type);
}

-- The rows of a deletion.
unfoldable pub deleted_file : Workspace → TenantContext → SourceFile → Answer Workspace
deleted_file w tenant f = do
  w₁ ← apply_storage_delta (remove_file w f) tenant.organization_id (sub_ℕ 0 f.size_bytes)
  answered (deleted_event w₁ tenant f)

-- `if record.storage_key`
unfoldable pub object_key : Option Text → Option Text
object_key none = none
object_key (some []) = none
object_key (some (c ∷ key)) = some (c ∷ key)

-- The unit of work of `delete_source_file`, given how a key belongs to the tenant's namespace and
-- whether the storage deletes the object.
unfoldable pub delete_found :
    (Text → Belonging) → Bool → Workspace → TenantContext → SourceFile → Answer Workspace
unfolding is_pending in_use deleted_file object_key is_outside is_malformed
delete_found belongs deletes w tenant f = do
  run ← run_of_tenant w f.run_id tenant.organization_id
  refuse_if (not (is_pending run.status) || in_use (get_for_run w f.run_id tenant.organization_id))
      file_in_use
  refuse_if (elim (object_key f.storage_key) [ none ↦ false | some k ↦ is_malformed (belongs k) ])
      internal_error
  refuse_if (elim (object_key f.storage_key) [ none ↦ false | some k ↦ is_outside (belongs k) ])
      file_not_found
  refuse_if (elim (object_key f.storage_key) [ none ↦ false | some k ↦ not deletes ])
      storage_unavailable
  deleted_file w tenant f

unfoldable pub rolled_back : Workspace → Answer Workspace → Workspace × Answer (Unit {0})
rolled_back w (answered w') = (w', answered tt)
rolled_back w (refused e) = (w, refused e)

-- After the look for the file.
unfoldable pub delete_looked :
    (Text → Belonging)
    → Bool
    → Workspace
    → TenantContext
    → Option SourceFile
    → Workspace × Answer (Unit {0})
unfolding delete_found rolled_back
delete_looked belongs deletes w tenant none = (w, answered tt)
delete_looked belongs deletes w tenant (some f) =
    rolled_back w (delete_found belongs deletes w tenant f)

-- `delete_source_file`
unfoldable pub delete_source_file :
    (Text → Belonging) → Bool → Workspace → TenantContext → ℕ → Workspace × Answer (Unit {0})
unfolding delete_looked
delete_source_file belongs deletes w tenant file_id =
    delete_looked belongs deletes w tenant (find_file w file_id tenant.organization_id)

abbrev pub renamed_event : Workspace → TenantContext → ℕ → Organization → Text → Workspace
renamed_event w manager organization_id o name =
    let w₁ : Workspace = put_organization w record o { name = name } in
    record w₁ {
      accounts =
          append_security w₁.accounts organization_id manager.user_id
            SecurityEventType.organization_profile_updated
            (SecurityDetails.name_change o.name name);
    }

-- The unit of work of `update_organization`, the name trimmed already.
unfoldable pub renamed : Workspace → TenantContext → ℕ → Text → Answer Workspace
unfolding ensure_selected
renamed w manager organization_id name = do
  ensure_selected organization_id manager
  o ← or_refuse (find_organization w.accounts organization_id) record_not_found
  answered (renamed_event w manager organization_id o name)

abbrev pub requoted_event : Workspace → TenantContext → ℕ → Organization → Option ℕ → Workspace
requoted_event w manager organization_id o quota_bytes = record w {
  accounts =
      append_security w.accounts organization_id manager.user_id
        SecurityEventType.organization_storage_quota_updated
        (SecurityDetails.quota_change o.storage_quota_bytes quota_bytes);
}

-- The unit of work of `update_storage_quota`.
unfoldable pub requoted : Workspace → TenantContext → ℕ → Option ℕ → Answer Workspace
unfolding ensure_selected
requoted w manager organization_id quota_bytes = do
  ensure_selected organization_id manager
  o ← or_refuse (find_organization w.accounts organization_id) record_not_found
  w₁ ← update_storage_quota w o quota_bytes
  answered (requoted_event w₁ manager organization_id o quota_bytes)

-- `except StorageQuotaExceededError`
unfoldable pub below_usage_error : ApiError → ApiError
below_usage_error storage_quota_exceeded = storage_quota_below_usage
below_usage_error e = e

unfoldable pub below_usage : Answer Workspace → Answer Workspace
unfolding below_usage_error
below_usage (answered w) = answered w
below_usage (refused e) = refused (below_usage_error e)

-- `update_organization`
unfoldable pub update_organization :
    Workspace → TenantContext → ℕ → Text → Workspace × Answer (Unit {0})
unfolding renamed rolled_back
update_organization w manager organization_id name =
    rolled_back w (renamed w manager organization_id name)

-- `update_storage_quota` of the routes.
unfoldable pub quota_updated :
    Workspace → TenantContext → ℕ → Option ℕ → Workspace × Answer (Unit {0})
unfolding requoted below_usage rolled_back
quota_updated w manager organization_id quota_bytes =
    rolled_back w (below_usage (requoted w manager organization_id quota_bytes))
