-- ===== src/Accounts/Store.antt =====
-- backend/src/reconcileflow/persistence/repositories.py: OrganizationRepository, UserRepository,
-- OrganizationMembershipRepository, RefreshTokenRepository and SecurityAuditEventRepository.append.
-- An insertion that violates a unique column is refused as the unit of work reports it.
use reconcileflow_ai.Prelude.{
  ℕ, ◌+◌, Bool, true, false, not, ◌&&◌, ◌||◌, Option, none, some, List, [], ◌∷◌, ◌++◌, filter, any,
  find?, length, if◌then◌else◌, ◌==◌, leb, Text, text_eq,
}
use reconcileflow_ai.Prelude.Keyed.{put}
use reconcileflow_ai.Accounts.Records.{
  Role, Organization, User, Membership, RefreshToken, SecurityEventType, SecurityDetails, Accounts,
  ApiError, persistence_conflict, record_not_found,
}

-- What a handler answers, or the error that it raises.
pub data Answer {ℓ} (A : Type ℓ) : Type ℓ where
  answered : A → Answer A
  refused : ApiError → Answer A

infixl 5 ◌>>=◌ ◌>>◌
abbrev pub ◌>>=◌ {ℓ κ} : {A : Type ℓ} {B : Type κ} → Answer A → (A → Answer B) → Answer B
answered a >>= f = f a
refused e >>= f = refused e

abbrev pub ◌>>◌ {ℓ} : {B : Type ℓ} → Answer (Unit {0}) → Answer B → Answer B
m >> k = m >>= λ _. k

-- `if test: raise error`
abbrev pub refuse_if : Bool → ApiError → Answer (Unit {0})
refuse_if true e = refused e
refuse_if false e = answered tt

abbrev pub or_refuse {ℓ} : {A : Type ℓ} → Option A → ApiError → Answer A
or_refuse none e = refused e
or_refuse (some a) e = answered a

-- The end of a unit of work: an error rolls it back.
abbrev pub commit {ℓ} : {A : Type ℓ} → Accounts → Answer (Accounts × A) → Accounts × Answer A
commit s (answered (s', a)) = (s', answered a)
commit s (refused e) = (s, refused e)

abbrev pub is_some {ℓ} : {A : Type ℓ} → Option A → Bool
is_some none = false
is_some (some a) = true

unfoldable pub same_role : Role → Role → Bool
same_role Role.owner Role.owner = true
same_role Role.admin Role.admin = true
same_role Role.analyst Role.analyst = true
same_role Role.viewer Role.viewer = true
same_role _ _ = false

-- `OrganizationRepository.get`, `None` where it raises
unfoldable pub find_organization : Accounts → ℕ → Option Organization
find_organization s organization_id = find? (λ o. o.id == organization_id) s.organizations

unfoldable pub slug_exists : Accounts → Text → Bool
slug_exists s slug = any (λ o. text_eq o.slug slug) s.organizations

-- `UserRepository.get_by_email`
unfoldable pub get_by_email : Accounts → Text → Option User
get_by_email s email = find? (λ u. text_eq u.email email) s.users

unfoldable pub get_user : Accounts → ℕ → Option User
get_user s user_id = find? (λ u. u.id == user_id) s.users

unfoldable pub email_exists : Accounts → Text → Bool
email_exists s email = any (λ u. text_eq u.email email) s.users

abbrev pub put_user : Accounts → User → Accounts
put_user s user = record s { users = put (λ u. u.id) user s.users }

-- The changed record of `record_failed_login`, and whether it is newly locked.
unfoldable pub record_failed_login : User → ℕ → ℕ → User × Bool
record_failed_login user threshold locked_until =
    let attempts = user.failed_login_attempts + 1 in
    if leb threshold attempts
    then (record user { failed_login_attempts = attempts; locked_until = some locked_until }, true)
    else (record user { failed_login_attempts = attempts }, false)

unfoldable pub reset_login_protection : User → User
reset_login_protection user =
    if not (user.failed_login_attempts == 0) || is_some user.locked_until
    then record user { failed_login_attempts = 0; locked_until = none }
    else user

-- Whether the membership's organization is active.
unfoldable pub in_active_organization : Accounts → Membership → Bool
in_active_organization s m = any (λ o. o.id == m.organization_id && o.is_active) s.organizations

-- `_active_memberships`: `list_for_user`, and the active ones of an active organization.
unfoldable pub active_memberships : Accounts → ℕ → List Membership
active_memberships s user_id =
    filter (λ m. m.is_active && in_active_organization s m)
      (filter (λ m. m.user_id == user_id) s.memberships)

-- `OrganizationMembershipRepository.get_active`
unfoldable pub get_active : Accounts → ℕ → ℕ → Option Membership
get_active s organization_id user_id =
    find?
      (λ m.
        m.organization_id == organization_id
        && m.user_id == user_id
        && m.is_active
        && in_active_organization s m)
      s.memberships

-- `OrganizationMembershipRepository.get`
unfoldable pub get_membership : Accounts → ℕ → ℕ → Answer Membership
get_membership s membership_id organization_id =
    or_refuse
      (find? (λ m. m.id == membership_id && m.organization_id == organization_id) s.memberships)
      record_not_found

unfoldable pub get_for_user : Accounts → ℕ → ℕ → Option Membership
get_for_user s organization_id user_id =
    find? (λ m. m.organization_id == organization_id && m.user_id == user_id) s.memberships

abbrev pub put_membership : Accounts → Membership → Accounts
put_membership s m = record s { memberships = put (λ x. x.id) m s.memberships }

-- `RefreshTokenRepository.create`
unfoldable pub create_token : Accounts → RefreshToken → Answer Accounts
create_token s token =
    if any (λ t. t.id == token.id || text_eq t.token_hash token.token_hash) s.tokens
    then refused persistence_conflict
    else answered record s { tokens = s.tokens ++ token ∷ [] }

unfoldable pub get_by_hash : Accounts → Text → Option RefreshToken
get_by_hash s token_hash = find? (λ t. text_eq t.token_hash token_hash) s.tokens

abbrev pub is_live : RefreshToken → Bool
is_live t = not (is_some t.revoked_at)

abbrev pub replacement_of : RefreshToken → ℕ → Text → ℕ → RefreshToken
replacement_of current replacement_id replacement_hash replacement_expires_at = record {
  id = replacement_id;
  user_id = current.user_id;
  family_id = current.family_id;
  token_hash = replacement_hash;
  expires_at = replacement_expires_at;
  revoked_at = none;
  replaced_by_id = none;
}

abbrev pub replaced : RefreshToken → ℕ → ℕ → RefreshToken
replaced current replacement_id at = record current {
  revoked_at = some at;
  replaced_by_id = some replacement_id;
}

abbrev pub put_token : Accounts → RefreshToken → Accounts
put_token s token = record s { tokens = put (λ t. t.id) token s.tokens }

-- `rotate`: the replacement is created, then the current record is revoked.
unfoldable pub rotate : Accounts → RefreshToken → ℕ → Text → ℕ → ℕ → Answer Accounts
rotate s current replacement_id replacement_hash replacement_expires_at at = do
  s₁ ←
      create_token s (replacement_of current replacement_id replacement_hash replacement_expires_at)
  answered (put_token s₁ (replaced current replacement_id at))

-- The live rows that pass a test are revoked: `revoke_family` and `revoke_all_for_user`.
unfoldable pub revoke_matching : (RefreshToken → Bool) → ℕ → List RefreshToken → List RefreshToken
revoke_matching p at [] = []
revoke_matching p at (t ∷ tokens) =
    (if p t && is_live t then record t { revoked_at = some at } else t)
    ∷ revoke_matching p at tokens

abbrev pub revoke_family : Accounts → ℕ → ℕ → Accounts
revoke_family s family_id at = record s {
  tokens = revoke_matching (λ t. t.family_id == family_id) at s.tokens;
}

-- The store, and how many tokens were live.
unfoldable pub revoke_all_for_user : Accounts → ℕ → ℕ → Accounts × ℕ
revoke_all_for_user s user_id at = (
  record s { tokens = revoke_matching (λ t. t.user_id == user_id) at s.tokens },
  length (filter (λ t. t.user_id == user_id && is_live t) s.tokens),
)

-- `revoke`: a record that is revoked already keeps its time.
unfoldable pub revoke : Accounts → RefreshToken → ℕ → Accounts
revoke s token at = if is_live token then put_token s record token { revoked_at = some at } else s

-- `SecurityAuditEventRepository.append`
abbrev pub append_security : Accounts → ℕ → ℕ → SecurityEventType → SecurityDetails → Accounts
append_security s organization_id actor_user_id event_type details = record s {
  events =
      s.events
      ++ record {
        organization_id = organization_id;
        actor_user_id = actor_user_id;
        event_type = event_type;
        details = details;
      }
        ∷ [];
}

-- One event in the organization of each membership.
unfoldable pub append_each :
    Accounts → ℕ → SecurityEventType → SecurityDetails → List Membership → Accounts
append_each s actor_user_id event_type facts [] = s
append_each s actor_user_id event_type facts (m ∷ memberships) =
    append_each (append_security s m.organization_id actor_user_id event_type facts) actor_user_id
      event_type facts memberships
