-- ===== src/Accounts/Ownership/Admin.antt =====
-- The memberships of owners under the requests of an administrator.
use mathlib.Core.List.{Memᴰ}
use reconcileflow_ai.Prelude.{
  ℕ, ◌≡◌, refl, ap, ◌∙◌, subst, Bool, true, false, not, ◌&&◌, ◌||◌, Option, none, some, List, [],
  ◌∷◌, ◌++◌, any, filter, if◌then◌else◌, ◌==◌, leb, arith, Text,
}
use reconcileflow_ai.Prelude.Members.{All_of}
use reconcileflow_ai.Prelude.Keyed.{put, put_absent, Keyed}
use reconcileflow_ai.Accounts.Records.{
  Role, Membership, Accounts, user_not_found, owner_role_required,
}
use reconcileflow_ai.Accounts.Store.{
  answered, or_refuse, is_some, same_role, get_by_email, get_for_user, get_membership,
}
use reconcileflow_ai.Accounts.Tenants.{TenantContext}
use reconcileflow_ai.Accounts.Membership.{
  count_active_owners, ensure_selected, ensure_admin_can_manage, with_member, with_role,
  without_member, added, updated, deactivated, add_member, update_member, deactivate_member,
}
use reconcileflow_ai.Accounts.Ownership.{membership_id, get_membership_lem}
use reconcileflow_ai.Accounts.Answers.{
  bind_answered, unless, answered_parts, commit_leaves, not_refused, parts_false,
}

-- The owners' memberships.
abbrev pub owners : Accounts → List Membership
owners s = filter (λ m. same_role m.role Role.owner) s.memberships

filter-put_of_not {ℓ} :
    {A : Type ℓ} (key : A → ℕ) (p : A → Bool) (old row : A) (xs : List A)
    → Keyed key xs
    → Memᴰ old xs
    → key row ≡ key old
    → p old ≡ false
    → p row ≡ false
    → filter p (put key row xs) ≡ filter p xs
unfolding filter put
filter-put_of_not key p old row [] u m e h k = refl
filter-put_of_not key p old row (x ∷ xs) u (Memᴰ.head q) e h k =
    let here : key row ≡ key x = e ∙ ap key q in
    let same : (key x == key row) ≡ true = ground arith in
    let left : p x ≡ false = rw q at h in
    rw (same, if◌then◌else◌, put_absent key row xs (rw here u.0), k, left) refl
filter-put_of_not key p old row (x ∷ xs) u (Memᴰ.tail m) e h k =
    let apart = All_of (λ y. (key y == key x) ≡ false) old xs u.0 m in
    let other : (key x == key row) ≡ false = ground arith in
    rw (other, if◌then◌else◌, filter-put_of_not key p old row xs u.1 m e h k) refl

filter-append_of_not {ℓ} :
    {A : Type ℓ} (p : A → Bool) (row : A) (xs : List A)
    → p row ≡ false
    → filter p (xs ++ row ∷ []) ≡ filter p xs
unfolding filter
filter-append_of_not p row [] h = rw (h, if◌then◌else◌) refl
filter-append_of_not p row (x ∷ xs) h = rw (filter-append_of_not p row xs h) refl

-- The check of an administrator lets pass only roles that are not the owner's.
admin_passes :
    (manager : TenantContext) (target : Role) (requested : Option Role)
    → manager.role ≡ Role.admin
    → ensure_admin_can_manage manager target requested ≡ answered tt
    → (same_role target Role.owner ≡ false)
      × ((elim requested [ none ↦ false | some r ↦ same_role r Role.owner ]) ≡ false)
unfolding ensure_admin_can_manage same_role
admin_passes manager target requested a h =
    let asks : Bool = elim requested [ none ↦ false | some r ↦ same_role r Role.owner ] in
    let test = not_refused _ owner_role_required h in
    let here : (same_role target Role.owner || asks) ≡ false = rw a at test in
    parts_false (same_role target Role.owner) asks here

abbrev SameOwners : Accounts → Accounts → Type 0
SameOwners s s' = owners s' ≡ owners s

module _ (s s' : Accounts) (manager : TenantContext) (admin : manager.role ≡ Role.admin) where
  added-SameOwners :
      (organization_id : ℕ) (email : Text) (role : Role) (id : ℕ) (a : Unit {0})
      → added s manager organization_id email role id ≡ answered (s', a)
      → SameOwners s s'
  unfolding added with_member
  added-SameOwners organization_id email role id a h =
      bind_answered (ensure_selected organization_id manager) _ _ h λ _ _ h1.
        bind_answered (ensure_admin_can_manage manager role (some role)) _ _ h1 λ _ passed h2.
          bind_answered (or_refuse (get_by_email s email) user_not_found) _ _ h2 λ user found h3.
            unless (not user.is_active) _ _ _ h3 λ _ h4.
              unless (is_some (get_for_user s organization_id user.id)) _ _ _ h4 λ _ h5.
                unless (any (λ m. m.id == id) s.memberships) _ _ _ h5 λ absent h6.
                  let after : Accounts = with_member s manager organization_id id user.id role in
                  let (e, _) = answered_parts after s' tt a h6 in
                  let (not_owner, _) = admin_passes manager role (some role) admin passed in
                  subst (λ (v : Accounts). SameOwners s v) e
                    (filter-append_of_not (λ (m : Membership). same_role m.role Role.owner) _
                      s.memberships not_owner)

  updated-SameOwners :
      (organization_id id : ℕ) (role : Role) (a : Unit {0})
      → Keyed membership_id s.memberships
      → updated s manager organization_id id role ≡ answered (s', a)
      → SameOwners s s'
  unfolding updated with_role
  updated-SameOwners organization_id id role a u h =
      bind_answered (ensure_selected organization_id manager) _ _ h λ _ _ h1.
        bind_answered (get_membership s id organization_id) _ _ h1 λ m found h2.
          bind_answered (ensure_admin_can_manage manager m.role (some role)) _ _ h2 λ _ passed h3.
            let left : Bool = leb (count_active_owners s organization_id) 1 in
            unless (same_role m.role Role.owner && not (same_role role Role.owner) && left) _ _ _ h3
              λ guard h4.
                let (here, _) = get_membership_lem s id organization_id m found in
                let after : Accounts = with_role s manager organization_id m role in
                let (e, _) = answered_parts after s' tt a h4 in
                let (was, is) = admin_passes manager m.role (some role) admin passed in
                subst (λ (v : Accounts). SameOwners s v) e
                  (filter-put_of_not membership_id (λ (m : Membership). same_role m.role Role.owner)
                    m (record m { role = role }) s.memberships u here refl was is)

  deactivated-SameOwners :
      (organization_id id : ℕ) (a : Unit {0})
      → Keyed membership_id s.memberships
      → deactivated s manager organization_id id ≡ answered (s', a)
      → SameOwners s s'
  unfolding deactivated without_member
  deactivated-SameOwners organization_id id a u h =
      bind_answered (ensure_selected organization_id manager) _ _ h λ _ _ h1.
        bind_answered (get_membership s id organization_id) _ _ h1 λ m found h2.
          bind_answered (ensure_admin_can_manage manager m.role none) _ _ h2 λ _ passed h3.
            unless (not m.is_active) _ _ _ h3 λ _ h4.
              let left : Bool = leb (count_active_owners s organization_id) 1 in
              unless (same_role m.role Role.owner && left) _ _ _ h4 λ guard h5.
                let (here, _) = get_membership_lem s id organization_id m found in
                let after : Accounts = without_member s manager organization_id m in
                let (e, _) = answered_parts after s' tt a h5 in
                let (was, _) = admin_passes manager m.role none admin passed in
                subst (λ (v : Accounts). SameOwners s v) e
                  (filter-put_of_not membership_id (λ (m : Membership). same_role m.role Role.owner)
                    m (record m { is_active = false }) s.memberships u here refl was was)

-- Whatever an administrator asks of the memberships, an addition, a change of a role or a
-- deactivation, the owners' memberships stay the same rows, and none is added, in tables where a
-- membership's identifier names one row.
pub admin_keeps_owners :
    (s : Accounts) (manager : TenantContext) (organization_id id : ℕ) (email : Text) (role : Role)
    → manager.role ≡ Role.admin
    → Keyed membership_id s.memberships
    → (owners (add_member s manager organization_id email role id).0 ≡ owners s)
      × (owners (update_member s manager organization_id id role).0 ≡ owners s)
      × (owners (deactivate_member s manager organization_id id).0 ≡ owners s)
unfolding add_member update_member deactivate_member
admin_keeps_owners s manager organization_id id email role admin u = (
  commit_leaves (λ (v : Accounts). SameOwners s v) s (added s manager organization_id email role id)
      refl (λ s' a. added-SameOwners s s' manager admin organization_id email role id a),
  commit_leaves (λ (v : Accounts). SameOwners s v) s (updated s manager organization_id id role)
      refl (λ s' a. updated-SameOwners s s' manager admin organization_id id role a u),
  commit_leaves (λ (v : Accounts). SameOwners s v) s (deactivated s manager organization_id id) refl
      (λ s' a. deactivated-SameOwners s s' manager admin organization_id id a u),
)
