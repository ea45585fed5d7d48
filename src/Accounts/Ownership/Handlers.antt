-- ===== src/Accounts/Ownership/Handlers.antt =====
-- What the handlers of backend/src/reconcileflow/api/routes/memberships.py, and registration, leave of
-- the tokens and of the owners of every organization.

use reconcileflow_ai.Prelude.{
  ℕ, ◌≤◌, ◌≡◌, refl, subst, inl, inr, Bool, true, false, not, ◌&&◌, none, some, [], ◌∷◌, ◌++◌, any,
  ◌==◌, leb, Bool-cases, Option-cases, All-append, arith, Text,
}
use reconcileflow_ai.Prelude.Keyed.{total, total_one, total-append}
use reconcileflow_ai.Accounts.Records.{Role, Membership, Organization, Accounts, user_not_found}
use reconcileflow_ai.Accounts.Store.{
  Answer, answered, refuse_if, or_refuse, is_some, same_role, get_by_email, email_exists,
  get_for_user, get_membership,
}
use reconcileflow_ai.Accounts.Tenants.{TenantContext}
use reconcileflow_ai.Accounts.Membership.{
  is_active_owner, count_active_owners, ensure_selected, ensure_admin_can_manage, with_member,
  with_role, without_member, added, updated, deactivated, add_member, update_member,
  deactivate_member,
}
use reconcileflow_ai.Accounts.Answers.{bind_answered, unless, answered_parts}
use reconcileflow_ai.Accounts.Ownership.{
  Owned, owns, append-Owned, get_membership_lem, with_role-Owned, without_member-Owned,
  with_member-Owned,
}
use reconcileflow_ai.Accounts.Answers.{commit_leaves}
use reconcileflow_ai.Accounts.Registration.{
  RegistrationRequest, NewIds, with_account, ids_taken, register_as, register, slug_of, free_slug,
}

-- A handler of memberships leaves the tokens alone and every organization an active owner.
abbrev pub Manages : Accounts → Accounts → Type 0
Manages s s' = (s'.tokens ≡ s.tokens) × (Owned s → Owned s')

pub added-Manages :
    (s s' : Accounts) (manager : TenantContext) (organization_id : ℕ) (email : Text) (role : Role)
    (id : ℕ) (a : Unit {0})
    → added s manager organization_id email role id ≡ answered (s', a)
    → Manages s s'
unfolding added with_member
added-Manages s s' manager organization_id email role id a h =
    bind_answered (ensure_selected organization_id manager) _ _ h λ _ _ h1.
      bind_answered (ensure_admin_can_manage manager role (some role)) _ _ h1 λ _ _ h2.
        bind_answered (or_refuse (get_by_email s email) user_not_found) _ _ h2 λ user found h3.
          unless (not user.is_active) _ _ _ h3 λ _ h4.
            unless (is_some (get_for_user s organization_id user.id)) _ _ _ h4 λ _ h5.
              unless (any (λ m. m.id == id) s.memberships) _ _ _ h5 λ absent h6.
                let after : Accounts = with_member s manager organization_id id user.id role in
                let (e, _) = answered_parts after s' tt a h6 in
                subst (λ (v : Accounts). Manages s v) e
                  (
                    refl,
                    λ owned.
                        with_member-Owned s manager organization_id id user.id role owned absent,
                  )

pub updated-Manages :
    (s s' : Accounts) (manager : TenantContext) (organization_id id : ℕ) (role : Role)
    (a : Unit {0})
    → updated s manager organization_id id role ≡ answered (s', a)
    → Manages s s'
unfolding updated
updated-Manages s s' manager organization_id id role a h =
    bind_answered (ensure_selected organization_id manager) _ _ h λ _ _ h1.
      bind_answered (get_membership s id organization_id) _ _ h1 λ m found h2.
        bind_answered (ensure_admin_can_manage manager m.role (some role)) _ _ h2 λ _ _ h3.
          let left : Bool = leb (count_active_owners s organization_id) 1 in
          unless (same_role m.role Role.owner && not (same_role role Role.owner) && left) _ _ _ h3
            λ guard h4.
              let (here, e) = get_membership_lem s id organization_id m found in
              let after : Accounts = with_role s manager organization_id m role in
              let (e', _) = answered_parts after s' tt a h4 in
              subst (λ (v : Accounts). Manages s v) e'
                (refl, λ owned. with_role-Owned s manager organization_id m role owned here e guard)

pub deactivated-Manages :
    (s s' : Accounts) (manager : TenantContext) (organization_id id : ℕ) (a : Unit {0})
    → deactivated s manager organization_id id ≡ answered (s', a)
    → Manages s s'
unfolding deactivated
deactivated-Manages s s' manager organization_id id a h =
    bind_answered (ensure_selected organization_id manager) _ _ h λ _ _ h1.
      bind_answered (get_membership s id organization_id) _ _ h1 λ m found h2.
        bind_answered (ensure_admin_can_manage manager m.role none) _ _ h2 λ _ _ h3.
          unless (not m.is_active) _ _ _ h3 λ _ h4.
            let left : Bool = leb (count_active_owners s organization_id) 1 in
            unless (same_role m.role Role.owner && left) _ _ _ h4 λ guard h5.
              let (here, e) = get_membership_lem s id organization_id m found in
              let after : Accounts = without_member s manager organization_id m in
              let (e', _) = answered_parts after s' tt a h5 in
              subst (λ (v : Accounts). Manages s v) e'
                (refl, λ owned. without_member-Owned s manager organization_id m owned here e guard)

keeps : (s : Accounts) → Manages s s
keeps s = (refl, λ owned. owned)

pub add_member-Manages :
    (s : Accounts) (manager : TenantContext) (organization_id : ℕ) (email : Text) (role : Role)
    (id : ℕ)
    → Manages s (add_member s manager organization_id email role id).0
unfolding add_member
add_member-Manages s manager organization_id email role id =
    commit_leaves (λ (v : Accounts). Manages s v) s (added s manager organization_id email role id)
      (keeps s) (λ s' a. added-Manages s s' manager organization_id email role id a)

pub update_member-Manages :
    (s : Accounts) (manager : TenantContext) (organization_id id : ℕ) (role : Role)
    → Manages s (update_member s manager organization_id id role).0
unfolding update_member
update_member-Manages s manager organization_id id role =
    commit_leaves (λ (v : Accounts). Manages s v) s (updated s manager organization_id id role)
      (keeps s) (λ s' a. updated-Manages s s' manager organization_id id role a)

pub deactivate_member-Manages :
    (s : Accounts) (manager : TenantContext) (organization_id id : ℕ)
    → Manages s (deactivate_member s manager organization_id id).0
unfolding deactivate_member
deactivate_member-Manages s manager organization_id id =
    commit_leaves (λ (v : Accounts). Manages s v) s (deactivated s manager organization_id id)
      (keeps s) (λ s' a. deactivated-Manages s s' manager organization_id id a)

-- Registration: the new organization is owned by its first member.
with_account-Owned :
    (s : Accounts) (request : RegistrationRequest) (ids : NewIds) (slug : Text) (quota : ℕ)
    → ids_taken s ids ≡ false
    → Owned s
    → Owned (with_account s request ids slug quota)
unfolding with_account ids_taken is_active_owner same_role
with_account-Owned s request ids slug quota absent (u, owned) =
    let m : Membership = record {
      id = ids.membership_id;
      organization_id = ids.organization_id;
      user_id = ids.user_id;
      role = Role.owner;
      is_active = true;
    } in
    let fresh : any (λ x. x.id == ids.membership_id) s.memberships ≡ false = ground arith in
    let mine : owns ids.organization_id m ≡ 1 = ground arith in
    let (u', owned') =
      append-Owned s (record s { memberships = s.memberships ++ m ∷ [] }) m (u, owned) refl refl
        fresh in
    (
      u',
      All-append (λ (o : Organization). 1 ≤ total (owns o.id) (s.memberships ++ m ∷ []))
          s.organizations _ owned'
          (
            omega (
              arith,
              mine,
              total-append (owns ids.organization_id) s.memberships (m ∷ []),
              total_one (owns ids.organization_id) m,
            ),
            tt,
          ),
    )

register_as-Manages :
    (s : Accounts) (request : RegistrationRequest) (ids : NewIds) (slug : Text) (quota : ℕ)
    → Manages s (register_as s request ids slug quota).0
unfolding register_as with_account
register_as-Manages s request ids slug quota = elim (Bool-cases (ids_taken s ids)) [
  | inl e ↦ rw (e, refuse_if) (keeps s)
  | inr e ↦ rw (e, refuse_if) (refl, with_account-Owned s request ids slug quota e)
]

pub register-Manages :
    (lower : Text → Text) (suffix : ℕ → Text) (s s' : Accounts) (request : RegistrationRequest)
    (ids : NewIds) (quota fuel : ℕ) (a : Answer (Unit {0}))
    → register lower suffix s request ids quota fuel ≡ some (s', a)
    → Manages s s'
unfolding register
register-Manages lower suffix s s' request ids quota fuel a h =
    let base : Text = slug_of lower request.organization_name in
    elim (Bool-cases (email_exists s request.email)) [
      | inl e ↦
          let same : s ≡ s' = ground arith in subst (λ (v : Accounts). Manages s v) same (keeps s)
      | inr e ↦ elim (Option-cases (free_slug s base suffix 0 base fuel)) [
        | inl n ↦ absurd (ground arith)
        | inr (slug, f) ↦
            let same : (register_as s request ids slug quota).0 ≡ s' = ground arith in
            subst (λ (v : Accounts). Manages s v) same
              (register_as-Manages s request ids slug quota)
      ]
    ]
