-- ===== src/Files/Quotas.antt =====
-- The storage counters under the handlers of files and of organizations.
use mathlib.Core.List.{Memᴰ}
use reconcileflow_ai.Prelude.{
  true, false, Bool, not, ℕ, ◌≡◌, refl, subst, inl, inr, ◌||◌, Option, none, some, if◌then◌else◌,
  ◌==◌, Bool-cases, Text,
}
use reconcileflow_ai.Prelude.Members.{All_of}
use reconcileflow_ai.Prelude.Keyed.{put-All_but, put-Keyed}
use reconcileflow_ai.Jobs.Table.{find?-Memᴰ}
use reconcileflow_ai.Jobs.Records.{Run}
use reconcileflow_ai.Accounts.Records.{Organization, SourceType, record_not_found}
use reconcileflow_ai.Accounts.Store.{Answer, answered, refused, or_refuse, find_organization}
use reconcileflow_ai.Accounts.Answers.{bind_answered, unless, or_refuse-some}
use reconcileflow_ai.Accounts.Tenants.{TenantContext}
use reconcileflow_ai.Accounts.Membership.{ensure_selected}
use reconcileflow_ai.Files.Workspace.{
  SourceFile, Workspace, run_in, run_of_tenant, get_for_run, over_quota, put_organization,
  update_storage_quota,
}
use reconcileflow_ai.Files.Handlers.{
  Handled, Saved, saved, empty_upload, upload_too_large, unsupported_upload, storage_failed,
  Belonging, is_outside, is_malformed, object_key, is_pending, in_use, source_file, store_file,
  upload_saved, upload_run, upload_source_file, delete_found, delete_looked, delete_source_file,
  renamed, requoted, renamed_event, requoted_event, below_usage, update_organization, quota_updated,
}
use reconcileflow_ai.Files.Finalization.{
  Finalization, ObjectMetadata, Looked, finalize_direct_upload,
}
use reconcileflow_ai.Files.Metering.{Metered, Charged, organization_key, run_of_tenant-run_in}
use reconcileflow_ai.Files.Finalization.Storage.{finalize_run-Metered}
use reconcileflow_ai.Files.Accounting.{
  owning-Metered, rolled_back-Metered, store_file-Metered, deleted_file-Metered, find_file_lem,
}

-- Both ends of a branch that refuses leave the tables.
either_way : (b : Bool) (x y : Handled) → Metered x.0 → Metered y.0 → Metered (if b then x else y).0
either_way true x y hx hy = hx
either_way false x y hx hy = hy

upload_run-Metered :
    (w : Workspace) (tenant : TenantContext) (run_id file_id : ℕ) (source_type : SourceType)
    (result : Saved) (found : Answer Run)
    → ((run : Run)
        → found ≡ answered run
        → run_in w.queue.runs run_id tenant.organization_id ≡ true)
    → Metered w
    → Metered (upload_run w tenant run_id file_id source_type result found).0
unfolding upload_run upload_saved source_file
upload_run-Metered w tenant run_id file_id source_type result (refused e) belongs h = h
upload_run-Metered w tenant run_id file_id source_type (saved stored) (answered run) belongs h =
    let f : SourceFile = source_file file_id run_id source_type stored in
    elim (Bool-cases (is_pending run.status)) [
      | inr e ↦ rw (e, if◌then◌else◌) h
      | inl e ↦
          rw (e, if◌then◌else◌)
            (owning-Metered w stored.storage_key (store_file w tenant.organization_id f) h
              (λ w' q. store_file-Metered w w' tenant.organization_id f (belongs run refl) q h))
    ]
upload_run-Metered w tenant run_id file_id source_type empty_upload (answered run) belongs h =
    either_way (not (is_pending run.status)) _ _ h h
upload_run-Metered w tenant run_id file_id source_type upload_too_large (answered run) belongs h =
    either_way (not (is_pending run.status)) _ _ h h
upload_run-Metered w tenant run_id file_id source_type storage_failed (answered run) belongs h =
    either_way (not (is_pending run.status)) _ _ h h
upload_run-Metered w tenant run_id file_id source_type unsupported_upload (answered run) belongs h =
    either_way (not (is_pending run.status)) _ _ h h

delete_found-Metered :
    (belongs : Text → Belonging) (deletes : Bool) (w w' : Workspace) (tenant : TenantContext)
    (f : SourceFile)
    → Memᴰ f w.files
    → run_in w.queue.runs f.run_id tenant.organization_id ≡ true
    → delete_found belongs deletes w tenant f ≡ answered w'
    → Metered w
    → Metered w'
unfolding delete_found
delete_found-Metered belongs deletes w w' tenant f here own h m =
    bind_answered (run_of_tenant w f.run_id tenant.organization_id) _ _ h λ run found h1.
      let busy = get_for_run w f.run_id tenant.organization_id in
      unless (not (is_pending run.status) || in_use busy) _ _ _ h1 λ _ h2.
        unless
          (elim (object_key f.storage_key) [ none ↦ false | some k ↦ is_malformed (belongs k) ]) _ _
          _ h2
          λ _ h3.
            unless
              (elim (object_key f.storage_key) [ none ↦ false | some k ↦ is_outside (belongs k) ]) _
              _ _ h3
              λ _ h4.
                unless (elim (object_key f.storage_key) [ none ↦ false | some k ↦ not deletes ]) _ _
                  _ h4 λ _ h5. deleted_file-Metered w w' tenant f here own h5 m

delete_looked-Metered :
    (belongs : Text → Belonging) (deletes : Bool) (w : Workspace) (tenant : TenantContext)
    (found : Option SourceFile)
    → ((f : SourceFile)
        → found ≡ some f
        → Memᴰ f w.files × (run_in w.queue.runs f.run_id tenant.organization_id ≡ true))
    → Metered w
    → Metered (delete_looked belongs deletes w tenant found).0
unfolding delete_looked
delete_looked-Metered belongs deletes w tenant none own h = h
delete_looked-Metered belongs deletes w tenant (some f) own h =
    let (here, runs) = own f refl in
    rolled_back-Metered w (delete_found belongs deletes w tenant f) h
      (λ w' q. delete_found-Metered belongs deletes w w' tenant f here runs q h)

-- A change of an organization's name or quota, the quota not below what is used.
put_organization-Metered :
    (w : Workspace) (o o' : Organization)
    → Memᴰ o w.accounts.organizations
    → o'.id ≡ o.id
    → o'.storage_used_bytes ≡ o.storage_used_bytes
    → over_quota o'.storage_quota_bytes o.storage_used_bytes ≡ false
    → Metered w
    → Metered (put_organization w o')
put_organization-Metered w o o' here k used within (uo, uf, ur, cs) =
    let c = All_of (Charged w.queue.runs w.files) o w.accounts.organizations cs here in
    (
      put-Keyed organization_key o' w.accounts.organizations uo,
      uf,
      ur,
      put-All_but organization_key (Charged w.queue.runs w.files) (Charged w.queue.runs w.files) o'
          w.accounts.organizations (rw (used, k) c.0, rw used within) (λ x _ q. q) cs,
    )

find_organization-Memᴰ :
    (w : Workspace) (id : ℕ) (o : Organization)
    → find_organization w.accounts id ≡ some o
    → Memᴰ o w.accounts.organizations
unfolding find_organization
find_organization-Memᴰ w id o h =
    (find?-Memᴰ (λ (x : Organization). x.id == id) o w.accounts.organizations h).0

renamed-Metered :
    (w w' : Workspace) (manager : TenantContext) (organization_id : ℕ) (name : Text)
    → renamed w manager organization_id name ≡ answered w'
    → Metered w
    → Metered w'
unfolding renamed
renamed-Metered w w' manager organization_id name h m =
    bind_answered (ensure_selected organization_id manager) _ _ h λ _ _ h1.
      bind_answered (or_refuse (find_organization w.accounts organization_id) record_not_found) _ _
        h1
        λ o found h2.
          let here =
            find_organization-Memᴰ w organization_id o
              (or_refuse-some _ record_not_found o found) in
          let c = All_of (Charged w.queue.runs w.files) o w.accounts.organizations m.3 here in
          let kept = put_organization-Metered w o (record o { name = name }) here refl refl c.1 m in
          let moved : renamed_event w manager organization_id o name ≡ w' = cc in
          subst Metered moved kept

requoted-Metered :
    (w w' : Workspace) (manager : TenantContext) (organization_id : ℕ) (quota_bytes : Option ℕ)
    → requoted w manager organization_id quota_bytes ≡ answered w'
    → Metered w
    → Metered w'
unfolding requoted update_storage_quota
requoted-Metered w w' manager organization_id quota_bytes h m =
    bind_answered (ensure_selected organization_id manager) _ _ h λ _ _ h1.
      bind_answered (or_refuse (find_organization w.accounts organization_id) record_not_found) _ _
        h1
        λ o found h2. bind_answered (update_storage_quota w o quota_bytes) _ _ h2 λ w₁ changed h3.
          unless (over_quota quota_bytes o.storage_used_bytes) _ _ _ changed λ within h4.
            let here =
              find_organization-Memᴰ w organization_id o
                (or_refuse-some _ record_not_found o found) in
            let o' : Organization = record o { storage_quota_bytes = quota_bytes } in
            let first : put_organization w o' ≡ w₁ = cc in
            let moved : requoted_event w₁ manager organization_id o quota_bytes ≡ w' = cc in
            subst Metered moved
              (subst Metered first (put_organization-Metered w o o' here refl refl within m))

below_usage_answered :
    (m : Answer Workspace) (w' : Workspace) → below_usage m ≡ answered w' → m ≡ answered w'
unfolding below_usage
below_usage_answered (answered w) w' h = h
below_usage_answered (refused e) w' h = absurd (cc)

-- In tables whose organizations, files and runs have different identifiers, and where the storage
-- counter of every organization is the sum of the sizes of the files of its runs and within its quota:
-- so it is after an upload, a finalization and a deletion of a file and after a change of an
-- organization's quota and name, whatever they answer and whatever the storage does.
pub file_requests_keep_storage :
    (w : Workspace) (tenant : TenantContext) (run_id file_id organization_id limit : ℕ)
    (source_type : SourceType) (result : Saved) (belongs : Text → Belonging) (deletes : Bool)
    (payload : Finalization) (metadata : Looked ObjectMetadata) (inspected : Looked Saved)
    (quota_bytes : Option ℕ) (name : Text)
    → Metered w
    → Metered (upload_source_file w tenant run_id file_id source_type result).0
      × Metered
          (finalize_direct_upload belongs limit w tenant run_id file_id payload metadata
            inspected).0
      × Metered (delete_source_file belongs deletes w tenant file_id).0
      × Metered (quota_updated w tenant organization_id quota_bytes).0
      × Metered (update_organization w tenant organization_id name).0
unfolding upload_source_file finalize_direct_upload delete_source_file quota_updated
    update_organization
file_requests_keep_storage w tenant run_id file_id organization_id limit source_type result belongs
      deletes payload metadata inspected quota_bytes name h =
    (
      upload_run-Metered w tenant run_id file_id source_type result _
          (run_of_tenant-run_in w run_id tenant.organization_id) h,
      finalize_run-Metered belongs limit w tenant run_id file_id payload metadata inspected _
          (run_of_tenant-run_in w run_id tenant.organization_id) h,
      delete_looked-Metered belongs deletes w tenant _
          (find_file_lem w file_id tenant.organization_id) h,
      rolled_back-Metered w (below_usage (requoted w tenant organization_id quota_bytes)) h (λ w' q.
          requoted-Metered w w' tenant organization_id quota_bytes
            (below_usage_answered (requoted w tenant organization_id quota_bytes) w' q) h),
      rolled_back-Metered w (renamed w tenant organization_id name) h
          (λ w' q. renamed-Metered w w' tenant organization_id name q h),
    )
