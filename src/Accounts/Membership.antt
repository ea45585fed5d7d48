-- ===== src/Accounts/Membership.antt =====
-- backend/src/reconcileflow/api/routes/memberships.py: a manager of an organization adds a member,
-- changes a role and deactivates a membership.
use reconcileflow_ai.Prelude.{
  ℕ, Bool, true, false, not, ◌&&◌, ◌||◌, Option, none, some, [], ◌∷◌, ◌++◌, any, filter, length,
  ◌==◌, leb, Text,
}
use reconcileflow_ai.Accounts.Records.{
  Role, Membership, SecurityEventType, SecurityDetails, Accounts, organization_access_denied,
  owner_role_required, user_not_found, persistence_conflict, final_owner_required,
  membership_inactive,
}
use reconcileflow_ai.Accounts.Store.{
  Answer, answered, ◌>>=◌, ◌>>◌, commit, refuse_if, or_refuse, is_some, same_role, get_by_email,
  get_for_user, get_membership, put_membership, append_security,
}
use reconcileflow_ai.Accounts.Tenants.{TenantContext}

unfoldable pub is_active_owner : ℕ → Membership → Bool
unfolding same_role
is_active_owner organization_id m =
    m.organization_id == organization_id && same_role m.role Role.owner && m.is_active

unfoldable pub count_active_owners : Accounts → ℕ → ℕ
unfolding is_active_owner
count_active_owners s organization_id =
    length (filter (is_active_owner organization_id) s.memberships)

-- `_ensure_selected`
unfoldable pub ensure_selected : ℕ → TenantContext → Answer (Unit {0})
ensure_selected organization_id manager =
    refuse_if (not (organization_id == manager.organization_id)) organization_access_denied

-- `_ensure_admin_can_manage`; a deactivation requests no role.
unfoldable pub ensure_admin_can_manage : TenantContext → Role → Option Role → Answer (Unit {0})
unfolding same_role
ensure_admin_can_manage manager target_role requested_role =
    refuse_if
      (same_role manager.role Role.admin
        && (same_role target_role Role.owner
            || (elim requested_role [ none ↦ false | some r ↦ same_role r Role.owner ])))
      owner_role_required

unfoldable pub with_member : Accounts → TenantContext → ℕ → ℕ → ℕ → Role → Accounts
with_member s manager organization_id membership_id user_id role =
    append_security
      (record s {
        memberships =
            s.memberships
            ++ record {
              id = membership_id;
              organization_id = organization_id;
              user_id = user_id;
              role = role;
              is_active = true;
            }
              ∷ [];
      })
      organization_id manager.user_id SecurityEventType.membership_created
      (SecurityDetails.membership_details membership_id user_id role)

-- The unit of work of `add_member`.
unfoldable pub added : Accounts → TenantContext → ℕ → Text → Role → ℕ → Answer (Accounts × Unit {0})
unfolding ensure_selected ensure_admin_can_manage with_member
added s manager organization_id email role membership_id = do
  ensure_selected organization_id manager
  ensure_admin_can_manage manager role (some role)
  user ← or_refuse (get_by_email s email) user_not_found
  refuse_if (not user.is_active) user_not_found
  refuse_if (is_some (get_for_user s organization_id user.id)) persistence_conflict
  refuse_if (any (λ m. m.id == membership_id) s.memberships) persistence_conflict
  answered (with_member s manager organization_id membership_id user.id role, tt)

-- `add_member`, with the identifier of the new membership.
unfoldable pub add_member :
    Accounts → TenantContext → ℕ → Text → Role → ℕ → Accounts × Answer (Unit {0})
unfolding added
add_member s manager organization_id email role membership_id =
    commit s (added s manager organization_id email role membership_id)

unfoldable pub with_role : Accounts → TenantContext → ℕ → Membership → Role → Accounts
with_role s manager organization_id m role =
    append_security (put_membership s record m { role = role }) organization_id manager.user_id
      SecurityEventType.membership_role_changed
      (SecurityDetails.role_change m.id m.user_id m.role role)

-- The unit of work of `update_member`.
unfoldable pub updated : Accounts → TenantContext → ℕ → ℕ → Role → Answer (Accounts × Unit {0})
unfolding ensure_selected ensure_admin_can_manage with_role
updated s manager organization_id membership_id role = do
  ensure_selected organization_id manager
  m ← get_membership s membership_id organization_id
  ensure_admin_can_manage manager m.role (some role)
  refuse_if
      (same_role m.role Role.owner
        && not (same_role role Role.owner)
        && leb (count_active_owners s organization_id) 1)
      final_owner_required
  answered (with_role s manager organization_id m role, tt)

-- `update_member`
unfoldable pub update_member :
    Accounts → TenantContext → ℕ → ℕ → Role → Accounts × Answer (Unit {0})
unfolding updated
update_member s manager organization_id membership_id role =
    commit s (updated s manager organization_id membership_id role)

unfoldable pub without_member : Accounts → TenantContext → ℕ → Membership → Accounts
without_member s manager organization_id m =
    append_security (put_membership s record m { is_active = false }) organization_id
      manager.user_id SecurityEventType.membership_deactivated
      (SecurityDetails.membership_details m.id m.user_id m.role)

-- The unit of work of `deactivate_member`.
unfoldable pub deactivated : Accounts → TenantContext → ℕ → ℕ → Answer (Accounts × Unit {0})
unfolding ensure_selected ensure_admin_can_manage without_member
deactivated s manager organization_id membership_id = do
  ensure_selected organization_id manager
  m ← get_membership s membership_id organization_id
  ensure_admin_can_manage manager m.role none
  refuse_if (not m.is_active) membership_inactive
  refuse_if (same_role m.role Role.owner && leb (count_active_owners s organization_id) 1)
      final_owner_required
  answered (without_member s manager organization_id m, tt)

-- `deactivate_member`
unfoldable pub deactivate_member : Accounts → TenantContext → ℕ → ℕ → Accounts × Answer (Unit {0})
unfolding deactivated
deactivate_member s manager organization_id membership_id =
    commit s (deactivated s manager organization_id membership_id)
