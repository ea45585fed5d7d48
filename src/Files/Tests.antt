-- ===== src/Files/Tests.antt =====
-- An organization with a quota of 100 bytes, a pending run and a file of 60 bytes.

use reconcileflow_ai.Prelude.{ℕ, ◌≡◌, refl, true, none, some, [], ◌∷◌, codes, any, find?}
use reconcileflow_ai.Prelude.Keyed.{total}
use reconcileflow_ai.Runs.Repository.{new_run}
use reconcileflow_ai.Accounts.Records.{Role, Organization, SourceType, storage_quota_exceeded}
use reconcileflow_ai.Accounts.Store.{refused, find_organization}
use reconcileflow_ai.Accounts.Tenants.{TenantContext}
use reconcileflow_ai.Files.Workspace.{
  Workspace, run_in, run_of_tenant, add_file, apply_storage_delta, over_quota,
}
use reconcileflow_ai.Files.Handlers.{
  StoredUpload, saved, inside, source_file, upload_source_file, delete_source_file, quota_updated,
  update_organization,
}
use reconcileflow_ai.Files.Finalization.{
  Finalization, ObjectMetadata, looked, finalize_direct_upload,
}
use reconcileflow_ai.Files.Metering.{Metered, charge}
use reconcileflow_ai.Files.Quotas.{file_requests_keep_storage}
use reconcileflow_ai.Files.Uploads.{AllOrNothing, upload_keeps_AllOrNothing}

abbrev acme : Organization
acme = record {
  id = 1;
  name = codes "Acme";
  slug = codes "acme";
  is_active = true;
  storage_quota_bytes = some 100;
  storage_used_bytes = 60;
}

abbrev upload : ℕ → StoredUpload
upload size = record {
  storage_key = codes "1/key";
  original_filename = codes "bank.csv";
  content_type = codes "text/csv";
  size_bytes = size;
  checksum_sha256 = codes "c0ffee";
}

abbrev workspace : Workspace
workspace = record {
  queue = record {
    jobs = [];
    events = [];
    runs = new_run 5 1 ∷ [];
    result_runs = [];
    workers = [];
  };
  accounts = record {
    organizations = acme ∷ [];
    users = [];
    memberships = [];
    tokens = [];
    events = [];
  };
  files = source_file 7 5 SourceType.bank_transactions (upload 60) ∷ [];
}

abbrev tenant : TenantContext
tenant = record { organization_id = 1; user_id = 2; role = Role.analyst }

over_the_quota :
    upload_source_file workspace tenant 5 8 SourceType.erp_invoices (saved (upload 41))
    ≡ (workspace, refused storage_quota_exceeded, some (codes "1/key"))
unfolding upload_source_file run_of_tenant find? add_file any apply_storage_delta find_organization
over_the_quota = refl

workspace-Metered : Metered workspace
unfolding total charge run_in any source_file over_quota
workspace-Metered = ((tt, tt), (tt, tt), (tt, tt), ((refl, refl), tt))

abbrev payload : Finalization
payload = record {
  storage_key = codes "1/new";
  source_type = SourceType.erp_invoices;
  original_filename = codes "erp.csv";
  content_type = codes "text/csv";
  checksum_sha256 = codes "c0ffee";
  size_bytes = 40;
}

abbrev metadata : ObjectMetadata
metadata = record { size_bytes = 40; content_type = none; checksum_sha256 = none }

file_requests_keep_storage_example :
    Metered (upload_source_file workspace tenant 5 8 SourceType.erp_invoices (saved (upload 40))).0
    × Metered
        (finalize_direct_upload
          (λ _. inside)
          1_000
          workspace
          tenant
          5
          8
          payload
          (looked metadata)
          (looked (saved (upload 40)))).0
    × Metered (delete_source_file (λ _. inside) true workspace tenant 8).0
    × Metered (quota_updated workspace tenant 1 (some 60)).0
    × Metered (update_organization workspace tenant 1 (codes "Acme Ltd")).0
file_requests_keep_storage_example =
    file_requests_keep_storage workspace tenant 5 8 1 1_000 SourceType.erp_invoices
      (saved (upload 40)) (λ _. inside) true payload (looked metadata) (looked (saved (upload 40)))
      (some 60) (codes "Acme Ltd") workspace-Metered

upload_keeps_AllOrNothing_example :
    AllOrNothing workspace
      (source_file 8 5 SourceType.erp_invoices (upload 41))
      (codes "1/key")
      (upload_source_file workspace tenant 5 8 SourceType.erp_invoices (saved (upload 41)))
unfolding run_of_tenant find?
upload_keeps_AllOrNothing_example =
    upload_keeps_AllOrNothing workspace tenant 5 8 SourceType.erp_invoices (upload 41) (new_run 5 1)
      refl refl
