-- ===== src/Accounts/Tests.antt =====
-- Alice registers, logs in and refreshes, with a stand-in for the libraries of tokens and passwords.
use mathlib.Core.List.{Memᴰ}
use reconcileflow_ai.Prelude.{
  ◌+◌, ◌*◌, ◌≤◌, ◌≡◌, refl, true, none, some, List, [], ◌∷◌, any, find?, filter, All, arith,
  text_eq, codes,
}
use reconcileflow_ai.Prelude.Keyed.{total}
use reconcileflow_ai.Accounts.Records.{
  Role, Organization, User, Membership, RefreshToken, Accounts, refresh_token_reused,
}
use reconcileflow_ai.Accounts.Tokens.{
  access, refresh, TokenClaims, timestamp, from_timestamp, issue, decode, claims_of, payload_of,
  same_type, decode_refresh, decode_access, issue_access, issue_refresh,
}
use reconcileflow_ai.Accounts.Tokens.RoundTrip.{issued_decodes}
use reconcileflow_ai.Accounts.Store.{
  answered, refused, create_token, get_by_email, get_by_hash, get_user, active_memberships,
  in_active_organization, slug_exists, email_exists, rotate,
}
use reconcileflow_ai.Accounts.Auth.{Drawn, TokenPair, LoginResponse, login, refresh_tokens}
use reconcileflow_ai.Accounts.Registration.{RegistrationRequest, register, with_account}
use reconcileflow_ai.Accounts.Tenants.{TenantContext}
use reconcileflow_ai.Accounts.Membership.{
  count_active_owners, add_member, update_member, deactivate_member,
}
use reconcileflow_ai.Accounts.Families.{OneLive, Ended}
use reconcileflow_ai.Accounts.Ownership.Admin.{owners, admin_keeps_owners}
use reconcileflow_ai.Accounts.Steps.{Step, Later, empty}
use reconcileflow_ai.Accounts.Invariant.{Later_empty-OneLive, Later_empty-Owned, Later-Ended}
use reconcileflow_ai.Accounts.Rotation.{Presents, Refreshed, reuse_ends_family, refresh_answers}
use reconcileflow_ai.Accounts.Protection.{Bounded, login-Bounded, LoggedIn, login_answers}
use reconcileflow_ai.Accounts.Samples.{
  plain_crypto, plain_crypto-DecodesEncoded, manager, passwords, settings, drawn, request, ids,
  suffix, registered,
}

registers : register (λ t. t) suffix empty request ids 0 1 ≡ some (registered, answered tt)
unfolding register email_exists any slug_exists
registers = refl

-- A second request for the same name goes round its loop once.
abbrev second : RegistrationRequest
second = record request { email = codes "c@b.io" }

abbrev signed_in : Accounts
signed_in =
    (login plain_crypto manager passwords registered settings (codes "a@b.io") (codes "pw")
      5_000_000 drawn).0

steps : Later plain_crypto manager passwords empty signed_in
unfolding with_account
steps =
    Later.after registered signed_in
      (Later.after empty registered Later.now
        (Step.registering (λ t. t) suffix request ids 0 1 registered (answered tt) registers))
      (Step.logging_in settings (codes "a@b.io") (codes "pw") 5_000_000 drawn tt)

Later_empty-OneLive_example : OneLive signed_in.tokens
Later_empty-OneLive_example = Later_empty-OneLive plain_crypto manager passwords signed_in steps

Later_empty-Owned_example :
    All (λ (o : Organization). 1 ≤ count_active_owners signed_in o.id) signed_in.organizations
Later_empty-Owned_example = Later_empty-Owned plain_crypto manager passwords signed_in steps

-- The token that Alice's login stores.
abbrev first : RefreshToken
first = record {
  id = 21;
  user_id = 1;
  family_id = 7;
  token_hash = 1 ∷ 21 ∷ 1 ∷ 5 ∷ 5 ∷ 86_405 ∷ [];
  expires_at = 86_405_000_000;
  revoked_at = none;
  replaced_by_id = none;
}

abbrev holding : RefreshToken → Accounts
holding token = record registered { tokens = token ∷ [] }

abbrev spent : RefreshToken
spent = record first { revoked_at = some 6_000_000; replaced_by_id = some 22 }

spent-Ended : Ended 7 (holding spent).tokens
unfolding total
spent-Ended = (refl, spent, Memᴰ.head refl, refl)

spent-OneLive : OneLive (holding spent).tokens
unfolding total
spent-OneLive = ((tt, tt), λ family. ground arith)

abbrev claims : TokenClaims
claims = record { subject = 1; token_id = 21; token_type = refresh; expires_at = 86_405_000_000 }

Presents-spent :
    Presents plain_crypto manager (holding spent) first.token_hash 7_000_000 claims spent
unfolding decode claims_of same_type from_timestamp get_by_hash find? text_eq with_account
Presents-spent = (refl, refl, refl, refl)

reuse_ends_family_example :
    ((refresh_tokens plain_crypto manager passwords
        (holding spent)
        first.token_hash
        7_000_000
        drawn).1
      ≡ refused refresh_token_reused)
    × Ended 7
        (refresh_tokens plain_crypto manager passwords
          (holding spent)
          first.token_hash
          7_000_000
          drawn).0.tokens
reuse_ends_family_example =
    reuse_ends_family plain_crypto manager passwords (holding spent) first.token_hash 7_000_000
      drawn claims spent Presents-spent refl

Later-Ended_example :
    Ended 7
      (refresh_tokens plain_crypto manager passwords
        (holding spent)
        first.token_hash
        7_000_000
        drawn).0.tokens
Later-Ended_example =
    Later-Ended plain_crypto manager passwords (holding spent)
      (refresh_tokens plain_crypto manager passwords (holding spent) first.token_hash 7_000_000
        drawn).0
      7 (Later.after (holding spent) _ Later.now (Step.refreshing first.token_hash 7_000_000 drawn))
      spent-OneLive spent-Ended

abbrev next_drawn : Drawn
next_drawn = record { access_id = 30; refresh_id = 31; family_id = 8 }

abbrev next_pair : TokenPair
next_pair = record {
  access_token = 1 ∷ 30 ∷ 0 ∷ 7 ∷ 7 ∷ 907 ∷ [];
  refresh_token = 1 ∷ 31 ∷ 1 ∷ 7 ∷ 7 ∷ 86_407 ∷ [];
}

refreshes :
    (refresh_tokens plain_crypto manager passwords
      (holding first)
      first.token_hash
      7_000_000
      next_drawn).1
    ≡ answered next_pair
unfolding refresh_tokens decode claims_of get_by_hash find? text_eq get_user with_account rotate
    create_token any issue payload_of timestamp
refreshes = refl

refresh_answers_example :
    Refreshed plain_crypto manager passwords
      (holding first)
      (refresh_tokens plain_crypto manager passwords
        (holding first)
        first.token_hash
        7_000_000
        next_drawn).0
      first.token_hash
      7_000_000
      next_drawn
      next_pair
refresh_answers_example =
    refresh_answers plain_crypto manager passwords (holding first) first.token_hash 7_000_000
      next_drawn next_pair refreshes

abbrev alice : User
alice = record {
  id = 1;
  email = codes "a@b.io";
  password_hash = codes "pw";
  display_name = none;
  is_active = true;
  failed_login_attempts = 0;
  locked_until = none;
}

abbrev home : List Membership
home = record { id = 3; organization_id = 2; user_id = 1; role = Role.owner; is_active = true } ∷ []

abbrev greeting : LoginResponse
greeting = record {
  user = alice;
  memberships = home;
  access_token = 1 ∷ 20 ∷ 0 ∷ 5 ∷ 5 ∷ 905 ∷ [];
  refresh_token = 1 ∷ 21 ∷ 1 ∷ 5 ∷ 5 ∷ 86_405 ∷ [];
}

logs_in :
    (login plain_crypto manager passwords registered settings
      (codes "a@b.io")
      (codes "pw")
      5_000_000
      drawn).1
    ≡ answered greeting
unfolding login get_by_email find? with_account text_eq create_token any active_memberships issue
    filter payload_of in_active_organization timestamp
logs_in = refl

login_answers_example :
    LoggedIn plain_crypto manager passwords registered signed_in
      (codes "a@b.io")
      (codes "pw")
      5_000_000
login_answers_example =
    login_answers plain_crypto manager passwords registered settings (codes "a@b.io") (codes "pw")
      5_000_000 drawn greeting logs_in

login-Bounded_example :
    All
      (Bounded 3)
      (login plain_crypto manager passwords registered settings
        (codes "a@b.io")
        (codes "no")
        5_000_000
        drawn).0.users
unfolding with_account
login-Bounded_example =
    login-Bounded plain_crypto manager passwords registered settings (codes "a@b.io") (codes "no")
      5_000_000 drawn (omega arith) ((omega arith, λ _. omega arith), tt)

issued_decodes_example :
    let refresh_token = (issue_refresh plain_crypto manager 1 5_000_000 21).value in
    let access_token = (issue_access plain_crypto manager 1 5_000_000 21).value in
    (decode_refresh plain_crypto manager refresh_token 7_000_000
      ≡ some record {
        subject = 1;
        token_id = 21;
        token_type = refresh;
        expires_at = timestamp (5_000_000 + manager.refresh_ttl) * 1_000_000;
      })
    × (decode_access plain_crypto manager refresh_token 7_000_000 ≡ none)
    × (decode_access plain_crypto manager access_token 7_000_000
        ≡ some record {
          subject = 1;
          token_id = 21;
          token_type = access;
          expires_at = timestamp (5_000_000 + manager.access_ttl) * 1_000_000;
        })
    × (decode_refresh plain_crypto manager access_token 7_000_000 ≡ none)
unfolding timestamp
issued_decodes_example =
    issued_decodes plain_crypto manager plain_crypto-DecodesEncoded (λ e. cc, λ e. cc, λ e. cc) 1
      5_000_000 21 7_000_000 (omega arith) (omega arith) (omega arith)

abbrev administrator : TenantContext
administrator = record { organization_id = 2; user_id = 9; role = Role.admin }

admin_keeps_owners_example :
    (owners (add_member registered administrator 2 (codes "a@b.io") Role.owner 4).0
      ≡ owners registered)
    × (owners (update_member registered administrator 2 4 Role.owner).0 ≡ owners registered)
    × (owners (deactivate_member registered administrator 2 4).0 ≡ owners registered)
unfolding with_account
admin_keeps_owners_example =
    admin_keeps_owners registered administrator 2 4 (codes "a@b.io") Role.owner refl (tt, tt)
