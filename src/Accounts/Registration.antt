-- ===== src/Accounts/Registration.antt =====
-- backend/src/reconcileflow/api/routes/auth.py, `_slug` and `register`. The lower case of Python is a
-- parameter, and so is the sequence of the suffixes that the loop for a free slug draws.
pub mod Slugs
use reconcileflow_ai.Prelude.{
  ℕ, zero, suc, ◌+◌, Bool, true, false, not, ◌&&◌, ◌||◌, Option, none, some, List, [], ◌∷◌, ◌++◌,
  any, if◌then◌else◌, ◌==◌, leb, Text, codes, take,
}
use mathlib.Core.List.{reverse}
use reconcileflow_ai.Accounts.Records.{
  Role, Organization, User, Membership, SecurityEventType, SecurityDetails, Accounts,
  email_already_registered, persistence_conflict,
}
use reconcileflow_ai.Accounts.Store.{
  Answer, answered, refused, ◌>>=◌, ◌>>◌, commit, refuse_if, slug_exists, email_exists,
  append_security,
}

-- `[a-z0-9]`
unfoldable pub plain_char : ℕ → Bool
plain_char c = (leb b'a' c && leb c b'z') || (leb b'0' c && leb c b'9')

-- `re.sub(r"[^a-z0-9]+", "-", text)`: one dash for each run of other characters; the flag says
-- that the character before was one of them.
unfoldable pub dashed : Bool → Text → Text
unfolding plain_char
dashed inside [] = []
dashed inside (c ∷ text) =
    let kept = c ∷ dashed false text in
    let rest = dashed true text in
    if plain_char c then kept else if inside then rest else b'-' ∷ rest

-- `text.lstrip("-")`
unfoldable pub strip_left : Text → Text
strip_left [] = []
strip_left (c ∷ text) = let rest = strip_left text in if c == b'-' then rest else c ∷ text

unfoldable pub strip_dashes : Text → Text
unfolding strip_left
strip_dashes text = reverse (strip_left (reverse (strip_left text)))

-- `text or other`
unfoldable pub or_text : Text → Text → Text
or_text [] other = other
or_text (c ∷ text) other = c ∷ text

-- `_slug`
unfoldable pub slug_of : (Text → Text) → Text → Text
unfolding dashed strip_dashes or_text
slug_of lower name =
    or_text (take 80 (strip_dashes (dashed false (lower name)))) (codes "organization")

-- The slug with the eight characters that are drawn.
unfoldable pub suffixed : Text → Text → Text
suffixed base_slug drawn = take 70 base_slug ++ b'-' ∷ drawn

-- The loop for a free slug on fuel, its rounds counted: round `n` draws `suffix n`.
unfoldable pub free_slug : Accounts → Text → (ℕ → Text) → ℕ → Text → ℕ → Option Text
unfolding suffixed
free_slug s base_slug suffix n slug zero = none
free_slug s base_slug suffix n slug (suc fuel) =
    let next = free_slug s base_slug suffix (suc n) (suffixed base_slug (suffix n)) fuel in
    if slug_exists s slug then next else some slug

pub record RegistrationRequest : Type 0 where
  pub email : Text
  pub password_hash : Text
  pub display_name : Option Text
  pub organization_name : Text

-- The identifiers of the new rows.
pub record NewIds : Type 0 where
  pub user_id : ℕ
  pub organization_id : ℕ
  pub membership_id : ℕ

-- Whether a new row repeats a primary key.
unfoldable pub ids_taken : Accounts → NewIds → Bool
ids_taken s ids =
    any (λ u. u.id == ids.user_id) s.users
    || any (λ o. o.id == ids.organization_id) s.organizations
    || any (λ m. m.id == ids.membership_id) s.memberships

-- The rows of a registration, their names trimmed already; a quota of 0 is none.
unfoldable pub with_account : Accounts → RegistrationRequest → NewIds → Text → ℕ → Accounts
with_account s request ids slug configured_quota =
    append_security
      (record s {
        users =
            s.users
            ++ record {
              id = ids.user_id;
              email = request.email;
              password_hash = request.password_hash;
              display_name = request.display_name;
              is_active = true;
              failed_login_attempts = 0;
              locked_until = none;
            }
              ∷ [];
        organizations =
            s.organizations
            ++ record {
              id = ids.organization_id;
              name = request.organization_name;
              slug = slug;
              is_active = true;
              storage_quota_bytes = if configured_quota == 0 then none else some configured_quota;
              storage_used_bytes = 0;
            }
              ∷ [];
        memberships =
            s.memberships
            ++ record {
              id = ids.membership_id;
              organization_id = ids.organization_id;
              user_id = ids.user_id;
              role = Role.owner;
              is_active = true;
            }
              ∷ [];
      })
      ids.organization_id ids.user_id SecurityEventType.user_registered
      (SecurityDetails.membership_role Role.owner)

-- The end of `register`, with the slug that its loop finds.
unfoldable pub register_as :
    Accounts → RegistrationRequest → NewIds → Text → ℕ → Accounts × Answer (Unit {0})
unfolding ids_taken with_account
register_as s request ids slug configured_quota = commit s do
  refuse_if (ids_taken s ids) persistence_conflict
  answered (with_account s request ids slug configured_quota, tt)

-- `register`, its loop on fuel; `none` is a loop that still runs.
unfoldable pub register :
    (Text → Text)
    → (ℕ → Text)
    → Accounts
    → RegistrationRequest
    → NewIds
    → ℕ
    → ℕ
    → Option (Accounts × Answer (Unit {0}))
unfolding free_slug slug_of register_as
register lower suffix s request ids configured_quota fuel =
    let base_slug : Text = slug_of lower request.organization_name in
    if email_exists s request.email
    then some (s, refused email_already_registered)
    else elim (free_slug s base_slug suffix 0 base_slug fuel) [
      | none ↦ none
      | some slug ↦ some (register_as s request ids slug configured_quota)
    ]
