-- ===== src/Accounts/Ownership.antt =====
-- Active owners of organizations under the handlers of
-- backend/src/reconcileflow/api/routes/memberships.py.
pub mod Handlers
pub mod Admin
use mathlib.Core.List.{Memᴰ}
use reconcileflow_ai.Prelude.{
  ℕ, zero, suc, ◌+◌, ◌≤◌, ◌≡◌, ◌⊎◌, refl, sym, ap, ◌∙◌, subst, inl, inr, Bool, true, false, not,
  ◌&&◌, ◌||◌, Option, none, some, List, [], ◌∷◌, ◌++◌, any, find?, filter, length, if◌then◌else◌,
  ◌==◌, leb, Bool-cases, All, arith, Text,
}
use reconcileflow_ai.Prelude.Members.{All-map_of}
use reconcileflow_ai.Prelude.Keyed.{
  one, one_le, total, total-append, put, Keyed, put-Keyed, append-Keyed, total-put,
}
use reconcileflow_ai.Jobs.Table.{find?-Memᴰ}
use reconcileflow_ai.Accounts.Records.{
  Role, Membership, Organization, Accounts, user_not_found, record_not_found,
}
use reconcileflow_ai.Accounts.Store.{
  Answer, answered, refused, ◌>>=◌, ◌>>◌, commit, refuse_if, or_refuse, is_some, same_role,
  get_by_email, get_for_user, get_membership, put_membership,
}
use reconcileflow_ai.Accounts.Tenants.{TenantContext}
use reconcileflow_ai.Accounts.Membership.{
  is_active_owner, count_active_owners, ensure_selected, ensure_admin_can_manage, with_member,
  with_role, without_member, added, updated, deactivated,
}
use reconcileflow_ai.Accounts.Answers.{
  bind_answered, unless, or_refuse-some, answered_parts, any-false,
}

abbrev pub membership_id : Membership → ℕ
membership_id m = m.id

-- 1 for an active owner of the organization.
abbrev pub owns : ℕ → Membership → ℕ
owns organization_id m = one (is_active_owner organization_id m)

-- Every organization has an active owner, and a membership's identifier names one row.
abbrev pub Owned : Accounts → Type 0
Owned s =
    Keyed membership_id s.memberships
    × All (λ (o : Organization). 1 ≤ total (owns o.id) s.memberships) s.organizations

pub length-filter {ℓ} :
    {A : Type ℓ} (p : A → Bool) (xs : List A) → length (filter p xs) ≡ total (λ x. one (p x)) xs
unfolding filter total
length-filter p [] = refl
length-filter p (x ∷ xs) = elim (Bool-cases (p x)) [
  | inl e ↦ rw (e, if◌then◌else◌, length-filter p xs) (omega arith)
  | inr e ↦ rw (e, if◌then◌else◌, length-filter p xs) (omega arith)
]

pub count_active_owners-total :
    (s : Accounts) (organization_id : ℕ)
    → count_active_owners s organization_id ≡ total (owns organization_id) s.memberships
unfolding count_active_owners
count_active_owners-total s organization_id =
    length-filter (is_active_owner organization_id) s.memberships

-- What one membership's change keeps: it loses its organization no owner, or another one is left.
put_keeps_owner :
    (organization_id : ℕ) (m m' : Membership) (ms : List Membership)
    → Keyed membership_id ms
    → Memᴰ m ms
    → m'.id ≡ m.id
    → (owns organization_id m ≤ owns organization_id m') ⊎ (2 ≤ total (owns organization_id) ms)
    → 1 ≤ total (owns organization_id) ms
    → 1 ≤ total (owns organization_id) (put membership_id m' ms)
put_keeps_owner organization_id m m' ms u n e (inl h) k =
    omega (arith, total-put (owns organization_id) membership_id m m' ms u n e)
put_keeps_owner organization_id m m' ms u n e (inr h) k =
    let small : owns organization_id m ≤ 1 = one_le (is_active_owner organization_id m) in
    omega (arith, small, total-put (owns organization_id) membership_id m m' ms u n e)

pub get_membership_lem :
    (s : Accounts) (id organization_id : ℕ) (m : Membership)
    → get_membership s id organization_id ≡ answered m
    → Memᴰ m s.memberships × (m.organization_id ≡ organization_id)
unfolding get_membership
get_membership_lem s id organization_id m h =
    let (here, e) =
      find?-Memᴰ (λ x. x.id == id && x.organization_id == organization_id) m s.memberships
        (or_refuse-some _ _ m h) in
    (here, ground arith)

owns_elsewhere : (o : ℕ) (m : Membership) → (m.organization_id == o) ≡ false → owns o m ≡ 0
unfolding is_active_owner
owns_elsewhere o m h = rw h refl

put-Owned :
    (s : Accounts) (organization_id : ℕ) (m m' : Membership)
    → Owned s
    → Memᴰ m s.memberships
    → m.organization_id ≡ organization_id
    → m'.id ≡ m.id
    → (owns organization_id m ≤ owns organization_id m')
      ⊎ (2 ≤ total (owns organization_id) s.memberships)
    → Owned (put_membership s m')
put-Owned s organization_id m m' (u, owned) here e k other = (
  put-Keyed membership_id m' s.memberships u,
  All-map_of (λ (o : Organization). 1 ≤ total (owns o.id) s.memberships)
      (λ (o : Organization). 1 ≤ total (owns o.id) (put membership_id m' s.memberships))
      (λ o h. put_keeps_owner o.id m m' s.memberships u here k (for_organization o.id) h)
      s.organizations owned,
)
  where
    for_organization : (o : ℕ) → (owns o m ≤ owns o m') ⊎ (2 ≤ total (owns o) s.memberships)
    for_organization o = elim (Bool-cases (organization_id == o)) [
      | inl q ↦
          let same : organization_id ≡ o = ground arith in
          subst (λ v. (owns v m ≤ owns v m') ⊎ (2 ≤ total (owns v) s.memberships)) same other
      | inr q ↦ let here₀ : owns o m ≡ 0 = owns_elsewhere o m (rw e q) in inl (omega (arith, here₀))
    ]

-- The guard of the final owner: the change takes no owner, or two are there.
guarded :
    (s : Accounts) (organization_id : ℕ) (m m' : Membership) (stays : Bool)
    → (same_role m.role Role.owner && not stays && leb (count_active_owners s organization_id) 1)
      ≡ false
    → (stays ≡ true → owns organization_id m ≤ owns organization_id m')
    → (owns organization_id m ≤ owns organization_id m')
      ⊎ (2 ≤ total (owns organization_id) s.memberships)
unfolding is_active_owner
guarded s organization_id m m' stays g h = elim (Bool-cases stays) [
  | inl e ↦ inl (h e)
  | inr e ↦ elim (Bool-cases (same_role m.role Role.owner)) [
    | inr r ↦
        let none_here : owns organization_id m ≡ 0 = ground arith in inl (omega (arith, none_here))
    | inl r ↦
        let many : leb (count_active_owners s organization_id) 1 ≡ false = ground arith in
        let total_of = count_active_owners-total s organization_id in inr (ground (arith, total_of))
  ]
]

pub with_role-Owned :
    (s : Accounts) (manager : TenantContext) (organization_id : ℕ) (m : Membership) (role : Role)
    → Owned s
    → Memᴰ m s.memberships
    → m.organization_id ≡ organization_id
    → (same_role m.role Role.owner
        && not (same_role role Role.owner)
        && leb (count_active_owners s organization_id) 1)
      ≡ false
    → Owned (with_role s manager organization_id m role)
unfolding with_role is_active_owner
with_role-Owned s manager organization_id m role owned here e g =
    let m' : Membership = record m { role = role } in
    put-Owned s organization_id m m' owned here e refl
      (guarded s organization_id m m' (same_role role Role.owner) g (λ h. ground arith))

pub without_member-Owned :
    (s : Accounts) (manager : TenantContext) (organization_id : ℕ) (m : Membership)
    → Owned s
    → Memᴰ m s.memberships
    → m.organization_id ≡ organization_id
    → (same_role m.role Role.owner && leb (count_active_owners s organization_id) 1) ≡ false
    → Owned (without_member s manager organization_id m)
unfolding without_member is_active_owner
without_member-Owned s manager organization_id m owned here e g =
    let m' : Membership = record m { is_active = false } in
    put-Owned s organization_id m m' owned here e refl
      (guarded s organization_id m m' false (ground arith) (λ h. ground arith))

-- A new membership takes no owner away.
pub append-Owned :
    (s s' : Accounts) (m : Membership)
    → Owned s
    → s'.organizations ≡ s.organizations
    → s'.memberships ≡ s.memberships ++ m ∷ []
    → any (λ x. x.id == m.id) s.memberships ≡ false
    → Owned s'
append-Owned s s' m (u, owned) eo em absent =
    rw (eo, em)
      (
        append-Keyed membership_id s.memberships m u (any-false _ s.memberships absent),
        All-map_of (λ (o : Organization). 1 ≤ total (owns o.id) s.memberships)
            (λ (o : Organization). 1 ≤ total (owns o.id) (s.memberships ++ m ∷ []))
            (λ o h. omega (arith, h, total-append (owns o.id) s.memberships (m ∷ [])))
            s.organizations owned,
      )

pub with_member-Owned :
    (s : Accounts) (manager : TenantContext) (organization_id id user_id : ℕ) (role : Role)
    → Owned s
    → any (λ m. m.id == id) s.memberships ≡ false
    → Owned (with_member s manager organization_id id user_id role)
unfolding with_member
with_member-Owned s manager organization_id id user_id role owned absent =
    append-Owned s (with_member s manager organization_id id user_id role)
      (record {
        id = id;
        organization_id = organization_id;
        user_id = user_id;
        role = role;
        is_active = true;
      })
      owned refl refl absent
