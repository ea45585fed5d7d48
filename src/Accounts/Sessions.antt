-- ===== src/Accounts/Sessions.antt =====
-- The handlers of backend/src/reconcileflow/api/routes/auth.py as writes of the table of tokens.
pub mod Login
pub mod Refresh
use mathlib.Core.List.{Memᴰ}
use reconcileflow_ai.Prelude.{
  ℕ, ◌≡◌, refl, sym, subst, inl, inr, Bool, true, false, not, ◌||◌, Option, none, some,
  if◌then◌else◌, ◌==◌, leb, Bool-cases, All, arith, Text, text_eq,
}
use reconcileflow_ai.Prelude.Members.{All-map_of}
use reconcileflow_ai.Jobs.Table.{find?-Memᴰ}
use reconcileflow_ai.Accounts.Records.{User, RefreshToken, Accounts, invalid_current_password}
use reconcileflow_ai.Accounts.Tokens.{
  Crypto, TokenManager, TokenClaims, IssuedToken, issue_refresh, hash_refresh_token,
}
use reconcileflow_ai.Accounts.Store.{
  answered, or_refuse, is_some, is_live, get_by_email, get_user, put_user, create_token,
  get_by_hash, rotate, put_token, replaced, replacement_of, revoke, append_each, active_memberships,
  revoke_all_for_user, reset_login_protection,
}
use reconcileflow_ai.Accounts.Auth.{
  Passwords, LoginSettings, Drawn, LoginResponse, TokenPair, login_failed, login_accepted,
  login_user, login, failed_user, login_token, login_response, logged_in, refresh_accepted,
  refreshed, token_pair, refresh_for, refresh_record, refresh_tokens, logout_record, logout,
  change_password, with_password, change_hash, refresh_claimed, logout_claimed, revoke_all_sessions,
  lock_is_active,
}
use reconcileflow_ai.Accounts.Answers.{
  bind_answered, unless, commit_leaves, answered_parts, create_token_lem, append_each-events,
  append_failures-events,
}
use reconcileflow_ai.Accounts.Families.{Written}

-- The tokens are written, and the memberships and organizations stay.
abbrev pub Writes : Accounts → Accounts → Type 0
Writes s s' =
    Written s.tokens s'.tokens
    × (s'.memberships ≡ s.memberships)
    × (s'.organizations ≡ s.organizations)

-- No token is of the family.
abbrev pub NewFamily : ℕ → Accounts → Type 0
NewFamily family s = All (λ t. (t.family_id == family) ≡ false) s.tokens

pub other_key :
    (n : ℕ) (h : Text) (t : RefreshToken)
    → (t.id == n || text_eq t.token_hash h) ≡ false
    → (t.id == n) ≡ false
other_key n h t e = ground arith

pub append_each-Writes :
    (s s₁ : Accounts) (actor : ℕ) (t : _) (d : _) (ms : _)
    → Writes s s₁
    → Writes s (append_each s₁ actor t d ms)
append_each-Writes s s₁ actor t d ms w =
    subst (λ (v : Accounts). Writes s v) (sym (append_each-events s₁ actor t d ms)) w

pub login_failed-Writes :
    (s : Accounts) (settings : LoginSettings) (user : User) (now : ℕ)
    → Writes s (login_failed s settings user now)
unfolding login_failed
login_failed-Writes s settings user now =
    let after : User × Bool = failed_user settings user now in
    subst (λ (v : Accounts). Writes s v)
      (sym (
        append_failures-events (put_user s after.0) after.0 after.1 settings.lockout_minutes
          (active_memberships s user.id)))
      (Written.kept, refl, refl)

pub revoke-Writes :
    (s : Accounts) (token : RefreshToken) (now : ℕ)
    → Memᴰ token s.tokens
    → Writes s (revoke s token now)
unfolding revoke
revoke-Writes s token now m = elim (Bool-cases (is_live token)) [
  | inl e ↦ rw (e, if◌then◌else◌) (Written.revoked_one token _ m refl refl refl, refl, refl)
  | inr e ↦ rw (e, if◌then◌else◌) (Written.kept, refl, refl)
]

pub rotate-Writes :
    (s s' : Accounts) (token : RefreshToken) (id : ℕ) (hash : Text) (expires_at at : ℕ)
    → Memᴰ token s.tokens
    → is_live token ≡ true
    → rotate s token id hash expires_at at ≡ answered s'
    → Writes s s'
unfolding rotate
rotate-Writes s s' token id hash expires_at at m l h = bind_answered _ _ _ h λ s₁ created h1.
    let (e, apart) = create_token_lem s s₁ _ created in
    let ids = All-map_of _ (λ t. (t.id == id) ≡ false) (other_key id hash) s.tokens apart in
    let e₁ : put_token s₁ (replaced token id at) ≡ s' = cc in
    subst (λ (v : Accounts). Writes s v) e₁
      (subst (λ (v : Accounts). Writes s (put_token v (replaced token id at))) (sym e)
        (
          Written.rotated token (replaced token id at) (replacement_of token id hash expires_at) m l
              refl refl refl refl refl ids,
          refl,
          refl,
        ))
