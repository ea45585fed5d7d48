-- ===== src/Files/Workspace.antt =====
-- The tables that the handlers of files read and write, and of
-- backend/src/reconcileflow/persistence/repositories.py SourceFileRepository, the storage accounting of
-- OrganizationRepository and BackgroundJobRepository.get_for_run.
use reconcileflow_ai.Prelude.{
  ℕ, ◌+◌, ◌-◌, suc, Bool, true, false, not, ◌&&◌, Option, none, some, List, [], ◌∷◌, ◌++◌, filter,
  any, find?, ◌==◌, ltb, Text, text_eq,
}
use reconcileflow_ai.Prelude.Int.{ℤ, pos, negsuc}
use reconcileflow_ai.Prelude.Keyed.{put}
use reconcileflow_ai.Jobs.Records.{Job, Run}
use reconcileflow_ai.Jobs.Store.{Store}
use reconcileflow_ai.Accounts.Records.{
  Organization, Accounts, SourceType, record_not_found, persistence_conflict,
  storage_quota_exceeded,
}
use reconcileflow_ai.Accounts.Store.{
  Answer, answered, ◌>>=◌, ◌>>◌, refuse_if, or_refuse, find_organization,
}

-- `SourceFileRecord`
pub record SourceFile : Type 0 where
  pub id : ℕ
  pub run_id : ℕ
  pub source_type : SourceType
  pub original_filename : Text
  pub content_type : Option Text
  pub checksum_sha256 : Text
  pub size_bytes : ℕ
  pub row_count : Option ℕ
  pub storage_key : Option Text

pub record Workspace : Type 0 where
  pub queue : Store
  pub accounts : Accounts
  pub files : List SourceFile

unfoldable pub same_source : SourceType → SourceType → Bool
same_source SourceType.bank_transactions SourceType.bank_transactions = true
same_source SourceType.erp_invoices SourceType.erp_invoices = true
same_source SourceType.gateway_settlements SourceType.gateway_settlements = true
same_source _ _ = false

-- The run belongs to the organization: the join of `find` and of `find_by_storage_key`.
unfoldable pub run_in : List Run → ℕ → ℕ → Bool
run_in runs run_id organization_id =
    any (λ r. r.id == run_id && r.organization_id == organization_id) runs

-- `BackgroundJobRepository.get_for_run`
unfoldable pub get_for_run : Workspace → ℕ → ℕ → Option Job
get_for_run w run_id organization_id =
    find? (λ j. j.run_id == run_id && j.organization_id == organization_id) w.queue.jobs

-- `ReconciliationRunRepository.get` in one organization.
unfoldable pub run_of_tenant : Workspace → ℕ → ℕ → Answer Run
run_of_tenant w run_id organization_id =
    or_refuse (find? (λ r. r.id == run_id && r.organization_id == organization_id) w.queue.runs)
      record_not_found

-- `SourceFileRepository.add`, with the identifier of the new row.
unfoldable pub add_file : Workspace → SourceFile → Answer Workspace
unfolding same_source
add_file w f = do
  refuse_if (any (λ x. x.run_id == f.run_id && same_source x.source_type f.source_type) w.files)
      persistence_conflict
  refuse_if (any (λ x. x.id == f.id) w.files) persistence_conflict
  answered record w { files = w.files ++ f ∷ [] }

-- `SourceFileRepository.find`
unfoldable pub find_file : Workspace → ℕ → ℕ → Option SourceFile
find_file w file_id organization_id =
    find? (λ f. f.id == file_id && run_in w.queue.runs f.run_id organization_id) w.files

-- `find_by_storage_key`
unfoldable pub find_by_storage_key : Workspace → Text → ℕ → Option SourceFile
find_by_storage_key w storage_key organization_id =
    find?
      (λ f.
        (elim f.storage_key [ none ↦ false | some k ↦ text_eq k storage_key ])
        && run_in w.queue.runs f.run_id organization_id)
      w.files

-- `SourceFileRepository.remove`
unfoldable pub remove_file : Workspace → SourceFile → Workspace
remove_file w f = record w { files = filter (λ x. not (x.id == f.id)) w.files }

-- `storage_used_bytes + delta_bytes`, and 0 where that is negative.
unfoldable pub storage_after : ℕ → ℤ → ℕ
storage_after used (pos n) = used + n
storage_after used (negsuc n) = used - suc n

-- `value is not None and value > quota`
unfoldable pub over_quota : Option ℕ → ℕ → Bool
over_quota none used = false
over_quota (some quota) used = ltb quota used

abbrev pub put_organization : Workspace → Organization → Workspace
put_organization w o = record w {
  accounts = record (w.accounts) {
    organizations = put (λ (x : Organization). x.id) o w.accounts.organizations;
  };
}

-- `OrganizationRepository.apply_storage_delta`
unfoldable pub apply_storage_delta : Workspace → ℕ → ℤ → Answer Workspace
unfolding storage_after over_quota
apply_storage_delta w organization_id delta_bytes = do
  o ← or_refuse (find_organization w.accounts organization_id) record_not_found
  let updated : ℕ = storage_after o.storage_used_bytes delta_bytes
  refuse_if (over_quota o.storage_quota_bytes updated) storage_quota_exceeded
  answered (put_organization w record o { storage_used_bytes = updated })

-- `OrganizationRepository.update_storage_quota`, on the record of an organization.
unfoldable pub update_storage_quota : Workspace → Organization → Option ℕ → Answer Workspace
unfolding over_quota
update_storage_quota w o quota_bytes = do
  refuse_if (over_quota quota_bytes o.storage_used_bytes) storage_quota_exceeded
  answered (put_organization w record o { storage_quota_bytes = quota_bytes })
