-- ===== src/Files/Finalization/Storage.antt =====
-- The storage counters under a finalization.

use reconcileflow_ai.Prelude.{
  ℕ, ◌≡◌, ◌⊎◌, refl, subst, inl, inr, true, ◌&&◌, Option, none, some, if◌then◌else◌, ◌==◌,
  Bool-cases, Text,
}
use reconcileflow_ai.Jobs.Records.{Run}
use reconcileflow_ai.Accounts.Store.{Answer, answered, refused}
use reconcileflow_ai.Accounts.Answers.{bind_answered}
use reconcileflow_ai.Accounts.Tenants.{TenantContext}
use reconcileflow_ai.Files.Workspace.{SourceFile, Workspace, same_source, run_in}
use reconcileflow_ai.Files.Handlers.{
  Saved, saved, empty_upload, upload_too_large, unsupported_upload, storage_failed, Belonging,
  inside, outside, malformed_key, is_pending, source_file, store_file,
}
use reconcileflow_ai.Files.Finalization.{
  Finalization, ObjectMetadata, Looked, looked, missing, unavailable, invalid_key,
  metadata_mismatch, inspection_fails, finalized_event, finalized, finalize_inspected,
  finalize_owned, finalize_new, finalize_run,
}
use reconcileflow_ai.Files.Metering.{Metered}
use reconcileflow_ai.Files.Accounting.{store_file-Metered}
use reconcileflow_ai.Files.Accounting.{owning-Metered}

finalized-Metered :
    (w w' : Workspace) (tenant : TenantContext) (f : SourceFile)
    → run_in w.queue.runs f.run_id tenant.organization_id ≡ true
    → finalized w tenant f ≡ answered w'
    → Metered w
    → Metered w'
unfolding finalized
finalized-Metered w w' tenant f own h m =
    bind_answered (store_file w tenant.organization_id f) _ _ h λ w₁ stored h1.
      let kept = store_file-Metered w w₁ tenant.organization_id f own stored m in
      let moved : finalized_event w₁ tenant f ≡ w' = cc in subst Metered moved kept

finalize_inspected-Metered :
    (w : Workspace) (tenant : TenantContext) (run_id file_id : ℕ) (payload : Finalization)
    (inspected : Looked Saved)
    → run_in w.queue.runs run_id tenant.organization_id ≡ true
    → Metered w
    → Metered (finalize_inspected w tenant run_id file_id payload inspected).0
unfolding finalize_inspected source_file
finalize_inspected-Metered w tenant run_id file_id payload (looked (saved stored)) own h =
    let f : SourceFile = record (source_file file_id run_id payload.source_type stored) {
      storage_key = some payload.storage_key;
    } in
    elim (Bool-cases (inspection_fails payload stored)) [
      | inl e ↦ rw (e, if◌then◌else◌) h
      | inr e ↦
          rw (e, if◌then◌else◌)
            (owning-Metered w payload.storage_key (finalized w tenant f) h
              (λ w' q. finalized-Metered w w' tenant f own q h))
    ]
finalize_inspected-Metered w tenant run_id file_id payload (looked empty_upload) own h = h
finalize_inspected-Metered w tenant run_id file_id payload (looked upload_too_large) own h = h
finalize_inspected-Metered w tenant run_id file_id payload (looked unsupported_upload) own h = h
finalize_inspected-Metered w tenant run_id file_id payload (looked storage_failed) own h = h
finalize_inspected-Metered w tenant run_id file_id payload invalid_key own h = h
finalize_inspected-Metered w tenant run_id file_id payload missing own h = h
finalize_inspected-Metered w tenant run_id file_id payload unavailable own h = h

finalize_owned-Metered :
    (limit : ℕ) (w : Workspace) (tenant : TenantContext) (run_id file_id : ℕ)
    (payload : Finalization) (metadata : Looked ObjectMetadata) (inspected : Looked Saved)
    → run_in w.queue.runs run_id tenant.organization_id ≡ true
    → Metered w
    → Metered (finalize_owned limit w tenant run_id file_id payload metadata inspected).0
unfolding finalize_owned
finalize_owned-Metered limit w tenant run_id file_id payload (looked metadata) inspected own h =
    elim (Bool-cases (metadata_mismatch limit payload metadata)) [
      | inl e ↦ rw (e, if◌then◌else◌) h
      | inr e ↦
          rw (e, if◌then◌else◌)
            (finalize_inspected-Metered w tenant run_id file_id payload inspected own h)
    ]
finalize_owned-Metered limit w tenant run_id file_id payload invalid_key inspected own h = h
finalize_owned-Metered limit w tenant run_id file_id payload missing inspected own h = h
finalize_owned-Metered limit w tenant run_id file_id payload unavailable inspected own h = h

finalize_new-Metered :
    (limit : ℕ) (w : Workspace) (tenant : TenantContext) (run_id file_id : ℕ)
    (payload : Finalization) (found : Option SourceFile) (metadata : Looked ObjectMetadata)
    (inspected : Looked Saved)
    → run_in w.queue.runs run_id tenant.organization_id ≡ true
    → Metered w
    → Metered (finalize_new limit w tenant run_id file_id payload found metadata inspected).0
unfolding finalize_new
finalize_new-Metered limit w tenant run_id file_id payload none metadata inspected own h =
    finalize_owned-Metered limit w tenant run_id file_id payload metadata inspected own h
finalize_new-Metered limit w tenant run_id file_id payload (some f) metadata inspected own h =
    elim (Bool-cases (f.run_id == run_id && same_source f.source_type payload.source_type)) [
      | inl e ↦ rw (e, if◌then◌else◌) h
      | inr e ↦ rw (e, if◌then◌else◌) h
    ]

Belonging-cases : (b : Belonging) → (b ≡ inside) ⊎ ((b ≡ outside) ⊎ (b ≡ malformed_key))
Belonging-cases inside = inl refl
Belonging-cases outside = inr (inl refl)
Belonging-cases malformed_key = inr (inr refl)

pub finalize_run-Metered :
    (belongs : Text → Belonging) (limit : ℕ) (w : Workspace) (tenant : TenantContext)
    (run_id file_id : ℕ) (payload : Finalization) (metadata : Looked ObjectMetadata)
    (inspected : Looked Saved) (found : Answer Run)
    → ((run : Run)
        → found ≡ answered run
        → run_in w.queue.runs run_id tenant.organization_id ≡ true)
    → Metered w
    → Metered
        (finalize_run belongs limit w tenant run_id file_id payload metadata inspected found).0
unfolding finalize_run
finalize_run-Metered belongs limit w tenant run_id file_id payload metadata inspected (refused e)
      own h =
    h
finalize_run-Metered belongs limit w tenant run_id file_id payload metadata inspected (answered run)
      own h =
    elim (Bool-cases (is_pending run.status)) [
      | inr e ↦ rw (e, if◌then◌else◌) h
      | inl e ↦ elim (Belonging-cases (belongs payload.storage_key)) [
        | inr (inr b) ↦ rw (e, b, if◌then◌else◌) h
        | inr (inl b) ↦ rw (e, b, if◌then◌else◌) h
        | inl b ↦
            rw (e, b, if◌then◌else◌)
              (finalize_new-Metered limit w tenant run_id file_id payload _ metadata inspected
                (own run refl) h)
      ]
    ]
