-- ===== src/Accounts/Tenants.antt =====
-- backend/src/reconcileflow/api/auth_dependencies.py: who calls, for which organization, and with
-- which role. Lower case and the parsing of identifiers are Python's, and are parameters.
use reconcileflow_ai.Prelude.{ℕ, Bool, true, false, not, Option, Text, text_eq, codes}
use reconcileflow_ai.Accounts.Records.{
  Role, User, Accounts, invalid_access_token, organization_required, invalid_organization,
  organization_access_denied, insufficient_role,
}
use reconcileflow_ai.Accounts.Tokens.{Crypto, TokenManager, decode_access}
use reconcileflow_ai.Accounts.Store.{
  Answer, answered, ◌>>=◌, ◌>>◌, refuse_if, or_refuse, get_user, get_active,
}

-- The credentials of an `Authorization` header.
pub record Credentials : Type 0 where
  pub scheme : Text
  pub credentials : Text

-- `get_current_user`
unfoldable pub get_current_user :
    Crypto → TokenManager → (Text → Text) → Accounts → Option Credentials → ℕ → Answer User
get_current_user crypto manager lower s header now = do
  c ← or_refuse header invalid_access_token
  refuse_if (not (text_eq (lower c.scheme) (codes "bearer"))) invalid_access_token
  claims ← or_refuse (decode_access crypto manager c.credentials now) invalid_access_token
  user ← or_refuse (get_user s claims.subject) invalid_access_token
  refuse_if (not user.is_active) invalid_access_token
  answered user

pub record TenantContext : Type 0 where
  pub organization_id : ℕ
  pub user_id : ℕ
  pub role : Role

-- `get_tenant_context`
unfoldable pub get_tenant_context :
    (Text → Option ℕ) → Accounts → User → Option Text → Answer TenantContext
get_tenant_context parse_uuid s user organization_header = do
  header ← or_refuse organization_header organization_required
  organization_id ← or_refuse (parse_uuid header) invalid_organization
  m ← or_refuse (get_active s organization_id user.id) organization_access_denied
  answered record { organization_id = organization_id; user_id = user.id; role = m.role }

-- `RECONCILIATION_OPERATOR_ROLES`
unfoldable pub operates : Role → Bool
operates Role.owner = true
operates Role.admin = true
operates Role.analyst = true
operates Role.viewer = false

-- `get_reconciliation_operator`
unfoldable pub get_reconciliation_operator : TenantContext → Answer TenantContext
unfolding operates
get_reconciliation_operator tenant = do
  refuse_if (not (operates tenant.role)) insufficient_role
  answered tenant

-- `MEMBERSHIP_MANAGER_ROLES`
unfoldable pub manages : Role → Bool
manages Role.owner = true
manages Role.admin = true
manages Role.analyst = false
manages Role.viewer = false

-- `get_membership_manager`
unfoldable pub get_membership_manager : TenantContext → Answer TenantContext
unfolding manages
get_membership_manager tenant = do
  refuse_if (not (manages tenant.role)) insufficient_role
  answered tenant
