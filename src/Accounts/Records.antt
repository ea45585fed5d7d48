-- ===== src/Accounts/Records.antt =====
-- backend/src/reconcileflow/persistence/models.py: the columns of organizations, users, memberships,
-- refresh tokens and security events that the handlers read or write. The database stamps
-- `created_at` and `updated_at`; they are left out. A time is a number of microseconds, an identifier
-- is a number.
use reconcileflow_ai.Prelude.{ℕ, Bool, Option, List, Text}

-- `MEMBERSHIP_ROLES`
pub data Role : Type 0 where
  owner admin analyst viewer : Role

pub record Organization : Type 0 where
  pub id : ℕ
  pub name : Text
  pub slug : Text
  pub is_active : Bool
  pub storage_quota_bytes : Option ℕ
  pub storage_used_bytes : ℕ

pub record User : Type 0 where
  pub id : ℕ
  pub email : Text
  pub password_hash : Text
  pub display_name : Option Text
  pub is_active : Bool
  pub failed_login_attempts : ℕ
  pub locked_until : Option ℕ

pub record Membership : Type 0 where
  pub id : ℕ
  pub organization_id : ℕ
  pub user_id : ℕ
  pub role : Role
  pub is_active : Bool

pub record RefreshToken : Type 0 where
  pub id : ℕ
  pub user_id : ℕ
  pub family_id : ℕ
  pub token_hash : Text
  pub expires_at : ℕ
  pub revoked_at : Option ℕ
  pub replaced_by_id : Option ℕ

-- `SOURCE_TYPES`
pub data SourceType : Type 0 where
  bank_transactions erp_invoices gateway_settlements : SourceType

-- The `event_type` of a security event.
pub data SecurityEventType : Type 0 where
  user_registered login_failed account_temporarily_locked user_logged_in refresh_token_rotated
        user_logged_out password_changed all_sessions_revoked membership_created
        membership_role_changed membership_deactivated source_file_deleted direct_upload_finalized
        organization_profile_updated organization_storage_quota_updated :
      SecurityEventType

-- The `details` of a security event, by its keys.
pub data SecurityDetails : Type 0 where
  no_details account_locked all_refresh_sessions_revoked : SecurityDetails
  membership_role : Role → SecurityDetails
  failed_attempts lockout_minutes revoked_session_count : ℕ → SecurityDetails
  file_details : (file_id run_id : ℕ) (source_type : SourceType) → SecurityDetails
  name_change : (previous_name new_name : Text) → SecurityDetails
  quota_change : (previous_quota_bytes new_quota_bytes : Option ℕ) → SecurityDetails
  membership_details : (membership_id subject_user_id : ℕ) (role : Role) → SecurityDetails
  role_change :
      (membership_id subject_user_id : ℕ) (previous_role new_role : Role) → SecurityDetails

pub record SecurityEvent : Type 0 where
  pub organization_id : ℕ
  pub actor_user_id : ℕ
  pub event_type : SecurityEventType
  pub details : SecurityDetails

-- The tables, each in the order in which its rows were created.
pub record Accounts : Type 0 where
  pub organizations : List Organization
  pub users : List User
  pub memberships : List Membership
  pub tokens : List RefreshToken
  pub events : List SecurityEvent

-- The codes of the errors that the handlers answer with, and the errors that the repositories
-- raise.
pub data ApiError : Type 0 where
  email_already_registered invalid_credentials invalid_refresh_token refresh_token_reused
        invalid_current_password password_reuse invalid_access_token organization_access_denied
        insufficient_role owner_role_required user_not_found final_owner_required
        membership_inactive organization_required invalid_organization record_not_found
        persistence_conflict storage_quota_exceeded run_not_pending empty_file file_too_large
        unsupported_file file_in_use file_not_found storage_unavailable file_already_finalized
        file_metadata_mismatch file_validation_failed storage_quota_below_usage ai_usage_limit
        invalid_value internal_error :
      ApiError
