-- ===== src/Accounts/Sessions/Login.antt =====
-- `login`, `change_password` and `revoke_all_sessions` as writes of the table of tokens.

use reconcileflow_ai.Prelude.{
  ℕ, ◌≡◌, refl, sym, subst, inl, inr, false, not, ◌||◌, Option, none, some, if◌then◌else◌, ◌==◌,
  Bool-cases, Text,
}
use reconcileflow_ai.Prelude.Members.{All-map_of}
use reconcileflow_ai.Accounts.Records.{User, RefreshToken, Accounts, invalid_current_password}
use reconcileflow_ai.Accounts.Tokens.{Crypto, TokenManager}
use reconcileflow_ai.Accounts.Store.{
  answered, or_refuse, get_by_email, get_user, put_user, create_token, revoke_all_for_user,
  reset_login_protection,
}
use reconcileflow_ai.Accounts.Auth.{
  Passwords, LoginSettings, Drawn, LoginResponse, login_accepted, login_user, login, login_token,
  login_response, logged_in, change_password, with_password, change_hash, revoke_all_sessions,
  lock_is_active,
}
use reconcileflow_ai.Accounts.Answers.{
  bind_answered, unless, commit_leaves, answered_parts, create_token_lem,
}
use reconcileflow_ai.Accounts.Families.{Written}
use reconcileflow_ai.Accounts.Sessions.{
  Writes, NewFamily, other_key, append_each-Writes, login_failed-Writes,
}

module _ (crypto : Crypto) (manager : TokenManager) (passwords : Passwords) where
  login_accepted-Writes :
      (s s' : Accounts) (user : User) (now : ℕ) (drawn : Drawn) (r : LoginResponse)
      → NewFamily drawn.family_id s
      → login_accepted crypto manager passwords s user now drawn ≡ answered (s', r)
      → Writes s s'
  unfolding login_accepted
  login_accepted-Writes s s' user now drawn r fresh h =
      let token : RefreshToken = login_token crypto manager passwords user now drawn in
      let reset : Accounts = put_user s (reset_login_protection user) in
      bind_answered (create_token reset token)
        (λ s₁. answered (
          logged_in crypto manager passwords s user s₁,
          login_response crypto manager passwords s user now drawn,
        ))
        (s', r) h
        λ s₁ created h1.
          let (e, apart) = create_token_lem reset s₁ token created in
          let ids =
            All-map_of _ (λ t. (t.id == token.id) ≡ false) (other_key token.id token.token_hash)
              s.tokens apart in
          let started : Writes s s₁ =
            subst (λ (v : Accounts). Writes s v) (sym e)
              (Written.begun token ids fresh, refl, refl) in
          let (e₁, _) =
            answered_parts (logged_in crypto manager passwords s user s₁) s'
              (login_response crypto manager passwords s user now drawn) r h1 in
          subst (λ (v : Accounts). Writes s v) e₁ (append_each-Writes s s₁ _ _ _ _ started)

  login_user-Writes :
      (s : Accounts) (settings : LoginSettings) (found : Option User) (password : Text) (now : ℕ)
      (drawn : Drawn)
      → NewFamily drawn.family_id s
      → Writes s (login_user crypto manager passwords s settings found password now drawn).0
  unfolding login_user
  login_user-Writes s settings none password now drawn fresh = (Written.kept, refl, refl)
  login_user-Writes s settings (some user) password now drawn fresh =
      elim (Bool-cases (lock_is_active user now || not user.is_active)) [
        | inl e ↦ elim (Bool-cases (lock_is_active user now)) [
          | inl l ↦
              rw (e, l, if◌then◌else◌) (append_each-Writes s s _ _ _ _ (Written.kept, refl, refl))
          | inr l ↦ rw (e, l, if◌then◌else◌) (Written.kept, refl, refl)
        ]
        | inr e ↦ elim (Bool-cases (passwords.verify password user.password_hash)) [
          | inr v ↦ rw (e, v, if◌then◌else◌) (login_failed-Writes s settings user now)
          | inl v ↦
              rw (e, v, if◌then◌else◌)
                (commit_leaves (λ (v : Accounts). Writes s v) s
                  (login_accepted crypto manager passwords s user now drawn)
                  (Written.kept, refl, refl)
                  (λ s' r. login_accepted-Writes s s' user now drawn r fresh))
        ]
      ]

  pub login-Writes :
      (s : Accounts) (settings : LoginSettings) (email password : Text) (now : ℕ) (drawn : Drawn)
      → NewFamily drawn.family_id s
      → Writes s (login crypto manager passwords s settings email password now drawn).0
  unfolding login
  login-Writes s settings email = login_user-Writes s settings (get_by_email s email)

  change_hash-Writes :
      (s s' : Accounts) (user_id : ℕ) (old new : Text) (now : ℕ) (a : Unit {0})
      → change_hash crypto manager passwords s user_id old new now ≡ answered (s', a)
      → Writes s s'
  unfolding change_hash revoke_all_for_user
  change_hash-Writes s s' user_id old new now a h =
      bind_answered (or_refuse (get_user s user_id) invalid_current_password) _ _ h λ user found h1.
        unless (not (passwords.verify old user.password_hash)) _ _ _ h1 λ passed h2.
          unless (passwords.verify new user.password_hash) _ _ _ h2 λ fresh h3.
            let after : Accounts = with_password crypto manager passwords s user user_id new now in
            let (e, _) = answered_parts after s' tt a h3 in
            subst (λ (v : Accounts). Writes s v) e
              (append_each-Writes s _ _ _ _ _
                (Written.revoked_some (λ t. t.user_id == user_id) now, refl, refl))

  pub change_password-Writes :
      (s : Accounts) (user_id : ℕ) (old new : Text) (now : ℕ)
      → Writes s (change_password crypto manager passwords s user_id old new now).0
  unfolding change_password
  change_password-Writes s user_id old new now =
      commit_leaves (λ (v : Accounts). Writes s v) s
        (change_hash crypto manager passwords s user_id old new now) (Written.kept, refl, refl)
        λ s' a. change_hash-Writes s s' user_id old new now a

pub revoke_all_sessions-Writes :
    (s : Accounts) (user_id now : ℕ) → Writes s (revoke_all_sessions s user_id now)
unfolding revoke_all_sessions revoke_all_for_user
revoke_all_sessions-Writes s user_id now =
    append_each-Writes s _ _ _ _ _ (Written.revoked_some _ now, refl, refl)
