-- ===== src/Accounts/Auth.antt =====
-- backend/src/reconcileflow/api/routes/auth.py: registration, login, the rotation of refresh tokens,
-- logout, the change of a password and the revocation of all sessions. A handler gives the tables
-- that it leaves and its answer: an error inside the unit of work rolls back, and one that is raised
-- after it does not. `expires_in` of the answers, a second reading of the clock, is left out.
use reconcileflow_ai.Prelude.{
  ℕ, ◌+◌, ◌*◌, Bool, false, not, ◌||◌, Option, none, some, List, [], ◌∷◌, if◌then◌else◌, ◌==◌, leb,
  ltb, Text,
}
use reconcileflow_ai.Accounts.Records.{
  User, Membership, RefreshToken, SecurityEventType, SecurityDetails, Accounts, invalid_credentials,
  invalid_refresh_token, refresh_token_reused, invalid_current_password, password_reuse,
}
use reconcileflow_ai.Accounts.Tokens.{
  Crypto, TokenManager, TokenClaims, IssuedToken, issue_access, issue_refresh, decode_refresh,
  hash_refresh_token,
}
use reconcileflow_ai.Accounts.Store.{
  Answer, answered, refused, ◌>>=◌, ◌>>◌, commit, refuse_if, or_refuse, is_some, get_by_email,
  get_user, put_user, record_failed_login, reset_login_protection, active_memberships, create_token,
  get_by_hash, rotate, revoke_family, revoke_all_for_user, revoke, append_security, append_each,
}

-- The password library: `hash password` with the salt it draws, and `verify password hash`.
pub record Passwords : Type 0 where
  pub hash : Text → Text
  pub verify : Text → Text → Bool

-- The settings `login_max_failed_attempts` and `login_lockout_minutes`.
pub record LoginSettings : Type 0 where
  pub max_failed_attempts : ℕ
  pub lockout_minutes : ℕ

-- The identifiers that a handler draws.
pub record Drawn : Type 0 where
  pub access_id : ℕ
  pub refresh_id : ℕ
  pub family_id : ℕ

pub record LoginResponse : Type 0 where
  pub user : User
  pub memberships : List Membership
  pub access_token : Text
  pub refresh_token : Text

pub record TokenPair : Type 0 where
  pub access_token : Text
  pub refresh_token : Text

abbrev pub minutes : ℕ → ℕ
minutes n = n * 60_000_000

-- `user.locked_until is not None and user.locked_until > now`
abbrev pub lock_is_active : User → ℕ → Bool
lock_is_active user now = elim user.locked_until [ none ↦ false | some until ↦ ltb now until ]

-- The events of a failed login: the attempts, and the lock when it is new.
unfoldable pub append_failures : Accounts → User → Bool → ℕ → List Membership → Accounts
append_failures s user newly_locked lockout [] = s
append_failures s user newly_locked lockout (m ∷ memberships) =
    let s₁ : Accounts =
      append_security s m.organization_id user.id SecurityEventType.login_failed
        (SecurityDetails.failed_attempts user.failed_login_attempts) in
    let s₂ : Accounts =
      if newly_locked
      then append_security s₁ m.organization_id user.id SecurityEventType.account_temporarily_locked
          (SecurityDetails.lockout_minutes lockout)
      else s₁ in
    append_failures s₂ user newly_locked lockout memberships

-- The user after a wrong password, and whether it is newly locked: an expired lock is reset first.
unfoldable pub failed_user : LoginSettings → User → ℕ → User × Bool
unfolding record_failed_login reset_login_protection
failed_user settings user now =
    record_failed_login (if is_some user.locked_until then reset_login_protection user else user)
      settings.max_failed_attempts (now + minutes settings.lockout_minutes)

-- The branch of a wrong password.
unfoldable pub login_failed : Accounts → LoginSettings → User → ℕ → Accounts
unfolding append_failures failed_user
login_failed s settings user now =
    let (user', newly_locked) = failed_user settings user now in
    append_failures (put_user s user') user' newly_locked settings.lockout_minutes
      (active_memberships s user.id)

module _ (crypto : Crypto) (manager : TokenManager) (passwords : Passwords) where
  -- The row that `login` creates.
  abbrev pub login_token : User → ℕ → Drawn → RefreshToken
  login_token user now drawn =
      let refresh : IssuedToken = issue_refresh crypto manager user.id now drawn.refresh_id in
      record {
        id = refresh.token_id;
        user_id = user.id;
        family_id = drawn.family_id;
        token_hash = hash_refresh_token crypto manager refresh.value;
        expires_at = refresh.expires_at;
        revoked_at = none;
        replaced_by_id = none;
      }

  abbrev pub login_response : Accounts → User → ℕ → Drawn → LoginResponse
  login_response s user now drawn = record {
    user = reset_login_protection user;
    memberships = active_memberships s user.id;
    access_token = (issue_access crypto manager user.id now drawn.access_id).value;
    refresh_token = (issue_refresh crypto manager user.id now drawn.refresh_id).value;
  }

  abbrev pub logged_in : Accounts → User → Accounts → Accounts
  logged_in s user s₁ =
      append_each s₁ user.id SecurityEventType.user_logged_in SecurityDetails.no_details
        (active_memberships s user.id)

  -- The branch of the right password.
  unfoldable pub login_accepted : Accounts → User → ℕ → Drawn → Answer (Accounts × LoginResponse)
  login_accepted s user now drawn = do
    s₁ ← create_token (put_user s (reset_login_protection user)) (login_token user now drawn)
    answered (logged_in s user s₁, login_response s user now drawn)

  unfoldable pub login_user :
      Accounts → LoginSettings → Option User → Text → ℕ → Drawn → Accounts × Answer LoginResponse
  unfolding login_failed login_accepted
  login_user s settings none password now drawn = (s, refused invalid_credentials)
  login_user s settings (some user) password now drawn =
      if lock_is_active user now || not user.is_active
      then (
        if lock_is_active user now
            then append_each s user.id SecurityEventType.login_failed SecurityDetails.account_locked
                (active_memberships s user.id)
            else s,
        refused invalid_credentials,
      )
      else if not (passwords.verify password user.password_hash)
      then (login_failed s settings user now, refused invalid_credentials)
      else commit s (login_accepted s user now drawn)

  -- `login`
  unfoldable pub login :
      Accounts → LoginSettings → Text → Text → ℕ → Drawn → Accounts × Answer LoginResponse
  unfolding login_user
  login s settings email password now drawn =
      login_user s settings (get_by_email s email) password now drawn

  abbrev pub token_pair : TokenClaims → ℕ → Drawn → TokenPair
  token_pair claims now drawn = record {
    access_token = (issue_access crypto manager claims.subject now drawn.access_id).value;
    refresh_token = (issue_refresh crypto manager claims.subject now drawn.refresh_id).value;
  }

  abbrev pub refreshed : Accounts → User → Accounts → Accounts
  refreshed s user s₁ =
      append_each s₁ user.id SecurityEventType.refresh_token_rotated SecurityDetails.no_details
        (active_memberships s user.id)

  -- The rotation for an active user, and its events.
  unfoldable pub refresh_accepted :
      Accounts → RefreshToken → TokenClaims → User → ℕ → Drawn → Answer (Accounts × TokenPair)
  refresh_accepted s token claims user now drawn = do
    let replacement : IssuedToken = issue_refresh crypto manager claims.subject now drawn.refresh_id
    s₁ ←
        rotate s token replacement.token_id (hash_refresh_token crypto manager replacement.value)
          replacement.expires_at now
    answered (
      append_each s₁ user.id SecurityEventType.refresh_token_rotated SecurityDetails.no_details
          (active_memberships s user.id),
      token_pair claims now drawn,
    )

  -- The branch of a live token that has not expired, by the user it belongs to.
  unfoldable pub refresh_for :
      Accounts → RefreshToken → TokenClaims → Option User → ℕ → Drawn → Accounts × Answer TokenPair
  unfolding refresh_accepted
  refresh_for s token claims none now drawn =
      (revoke_family s token.family_id now, refused invalid_refresh_token)
  refresh_for s token claims (some user) now drawn =
      if not user.is_active
      then (revoke_family s token.family_id now, refused invalid_refresh_token)
      else commit s (refresh_accepted s token claims user now drawn)

  unfoldable pub refresh_record :
      Accounts → Option RefreshToken → TokenClaims → ℕ → Drawn → Accounts × Answer TokenPair
  unfolding refresh_for
  refresh_record s none claims now drawn = (s, refused invalid_refresh_token)
  refresh_record s (some token) claims now drawn =
      if not (token.id == claims.token_id) || not (token.user_id == claims.subject)
      then (s, refused invalid_refresh_token)
      else if is_some token.revoked_at
      then (revoke_family s token.family_id now, refused refresh_token_reused)
      else if leb token.expires_at now
      then (revoke s token now, refused invalid_refresh_token)
      else refresh_for s token claims (get_user s token.user_id) now drawn

  -- After the decoding of the token; `none` is `TokenValidationError`.
  unfoldable pub refresh_claimed :
      Accounts → Option TokenClaims → Text → ℕ → Drawn → Accounts × Answer TokenPair
  unfolding refresh_record
  refresh_claimed s none presented now drawn = (s, refused invalid_refresh_token)
  refresh_claimed s (some claims) presented now drawn =
      refresh_record s (get_by_hash s (hash_refresh_token crypto manager presented)) claims now
        drawn

  -- `refresh_tokens`
  unfoldable pub refresh_tokens : Accounts → Text → ℕ → Drawn → Accounts × Answer TokenPair
  unfolding refresh_claimed
  refresh_tokens s presented now drawn =
      refresh_claimed s (decode_refresh crypto manager presented now) presented now drawn

  unfoldable pub logout_record :
      Accounts → Option RefreshToken → TokenClaims → ℕ → Accounts × Answer (Unit {0})
  logout_record s none claims now = (s, refused invalid_refresh_token)
  logout_record s (some token) claims now =
      if not (token.id == claims.token_id) || not (token.user_id == claims.subject)
      then (s, refused invalid_refresh_token)
      else (
        append_each (revoke s token now) claims.subject SecurityEventType.user_logged_out
            SecurityDetails.no_details (active_memberships s claims.subject),
        answered tt,
      )

  unfoldable pub logout_claimed :
      Accounts → Option TokenClaims → Text → ℕ → Accounts × Answer (Unit {0})
  unfolding logout_record
  logout_claimed s none presented now = (s, refused invalid_refresh_token)
  logout_claimed s (some claims) presented now =
      logout_record s (get_by_hash s (hash_refresh_token crypto manager presented)) claims now

  -- `logout`
  unfoldable pub logout : Accounts → Text → ℕ → Accounts × Answer (Unit {0})
  unfolding logout_claimed
  logout s presented now =
      logout_claimed s (decode_refresh crypto manager presented now) presented now

  -- The new hash is stored and every live token of the user is revoked.
  abbrev pub with_password : Accounts → User → ℕ → Text → ℕ → Accounts
  with_password s user user_id new_password now =
      let user' : User = record user { password_hash = passwords.hash new_password } in
      let s₁ : Accounts = (revoke_all_for_user (put_user s user') user_id now).0 in
      append_each s₁ user_id SecurityEventType.password_changed
        SecurityDetails.all_refresh_sessions_revoked (active_memberships s₁ user_id)

  -- The unit of work of `change_password`.
  unfoldable pub change_hash : Accounts → ℕ → Text → Text → ℕ → Answer (Accounts × Unit {0})
  change_hash s user_id current_password new_password now = do
    user ← or_refuse (get_user s user_id) invalid_current_password
    refuse_if (not (passwords.verify current_password user.password_hash)) invalid_current_password
    refuse_if (passwords.verify new_password user.password_hash) password_reuse
    answered (with_password s user user_id new_password now, tt)

  -- `change_password`, for the user that the access token names.
  unfoldable pub change_password : Accounts → ℕ → Text → Text → ℕ → Accounts × Answer (Unit {0})
  unfolding change_hash
  change_password s user_id current_password new_password now =
      commit s (change_hash s user_id current_password new_password now)

-- `revoke_all_sessions`
unfoldable pub revoke_all_sessions : Accounts → ℕ → ℕ → Accounts
revoke_all_sessions s user_id now =
    let (s₁, revoked) = revoke_all_for_user s user_id now in
    append_each s₁ user_id SecurityEventType.all_sessions_revoked
      (SecurityDetails.revoked_session_count revoked) (active_memberships s₁ user_id)
