-- ===== src/Accounts/Sessions/Refresh.antt =====
-- `refresh_tokens` and `logout` as writes of the table of tokens.
use mathlib.Core.List.{Memᴰ}
use reconcileflow_ai.Prelude.{
  ℕ, ◌≡◌, refl, subst, inl, inr, true, not, ◌||◌, Option, none, some, if◌then◌else◌, ◌==◌, leb,
  Bool-cases, Text, text_eq,
}
use reconcileflow_ai.Jobs.Table.{find?-Memᴰ}
use reconcileflow_ai.Accounts.Records.{User, RefreshToken, Accounts}
use reconcileflow_ai.Accounts.Tokens.{
  Crypto, TokenManager, TokenClaims, IssuedToken, issue_refresh, hash_refresh_token,
}
use reconcileflow_ai.Accounts.Store.{answered, is_some, is_live, get_user, get_by_hash, rotate}
use reconcileflow_ai.Accounts.Auth.{
  Passwords, Drawn, TokenPair, refresh_accepted, refreshed, token_pair, refresh_for, refresh_record,
  refresh_tokens, logout_record, logout, refresh_claimed, logout_claimed,
}
use reconcileflow_ai.Accounts.Answers.{bind_answered, commit_leaves, answered_parts}
use reconcileflow_ai.Accounts.Families.{Written}
use reconcileflow_ai.Accounts.Sessions.{Writes, append_each-Writes, revoke-Writes, rotate-Writes}

module _ (crypto : Crypto) (manager : TokenManager) (passwords : Passwords) where
  refresh_accepted-Writes :
      (s s' : Accounts) (token : RefreshToken) (claims : TokenClaims) (user : User) (now : ℕ)
      (drawn : Drawn) (pair : TokenPair)
      → Memᴰ token s.tokens
      → is_live token ≡ true
      → refresh_accepted crypto manager passwords s token claims user now drawn
        ≡ answered (s', pair)
      → Writes s s'
  unfolding refresh_accepted
  refresh_accepted-Writes s s' token claims user now drawn pair m l h =
      let replacement : IssuedToken =
        issue_refresh crypto manager claims.subject now drawn.refresh_id in
      let hash : Text = hash_refresh_token crypto manager replacement.value in
      bind_answered (rotate s token replacement.token_id hash replacement.expires_at now)
        (λ s₁. answered (
          refreshed crypto manager passwords s user s₁,
          token_pair crypto manager passwords claims now drawn,
        ))
        (s', pair) h
        λ s₁ turned h1.
          let (e, _) =
            answered_parts (refreshed crypto manager passwords s user s₁) s'
              (token_pair crypto manager passwords claims now drawn) pair h1 in
          subst (λ (v : Accounts). Writes s v) e
            (append_each-Writes s s₁ _ _ _ _ (rotate-Writes s s₁ token _ _ _ now m l turned))

  refresh_for-Writes :
      (s : Accounts) (token : RefreshToken) (claims : TokenClaims) (found : Option User) (now : ℕ)
      (drawn : Drawn)
      → Memᴰ token s.tokens
      → is_live token ≡ true
      → Writes s (refresh_for crypto manager passwords s token claims found now drawn).0
  unfolding refresh_for
  refresh_for-Writes s token claims none now drawn m l = (Written.revoked_some _ now, refl, refl)
  refresh_for-Writes s token claims (some user) now drawn m l = elim (Bool-cases user.is_active) [
    | inr e ↦ rw (e, if◌then◌else◌) (Written.revoked_some _ now, refl, refl)
    | inl e ↦
        rw (e, if◌then◌else◌)
          (commit_leaves (λ (v : Accounts). Writes s v) s
            (refresh_accepted crypto manager passwords s token claims user now drawn)
            (Written.kept, refl, refl)
            (λ s' pair. refresh_accepted-Writes s s' token claims user now drawn pair m l))
  ]

  refresh_record-Writes :
      (s : Accounts) (found : Option RefreshToken) (claims : TokenClaims) (now : ℕ) (drawn : Drawn)
      → ((t : RefreshToken) → found ≡ some t → Memᴰ t s.tokens)
      → Writes s (refresh_record crypto manager passwords s found claims now drawn).0
  unfolding refresh_record
  refresh_record-Writes s none claims now drawn m = (Written.kept, refl, refl)
  refresh_record-Writes s (some token) claims now drawn m =
      let here : Memᴰ token s.tokens = m token refl in
      elim (Bool-cases
        (not (token.id == claims.token_id) || not (token.user_id == claims.subject))) [
          | inl e ↦ rw (e, if◌then◌else◌) (Written.kept, refl, refl)
          | inr e ↦ elim (Bool-cases (is_some token.revoked_at)) [
            | inl r ↦ rw (e, r, if◌then◌else◌) (Written.revoked_some _ now, refl, refl)
            | inr r ↦ elim (Bool-cases (leb token.expires_at now)) [
              | inl x ↦ rw (e, r, x, if◌then◌else◌) (revoke-Writes s token now here)
              | inr x ↦
                  rw (e, r, x, if◌then◌else◌)
                    (refresh_for-Writes s token claims (get_user s token.user_id) now drawn here
                      (rw r refl))
            ]
          ]
        ]

  found_by_hash :
      (s : Accounts) (hash : Text) (t : RefreshToken)
      → get_by_hash s hash ≡ some t
      → Memᴰ t s.tokens
  unfolding get_by_hash
  found_by_hash s hash t h = (find?-Memᴰ (λ x. text_eq x.token_hash hash) t s.tokens h).0

  refresh_claimed-Writes :
      (s : Accounts) (claims : Option TokenClaims) (presented : Text) (now : ℕ) (drawn : Drawn)
      → Writes s (refresh_claimed crypto manager passwords s claims presented now drawn).0
  unfolding refresh_claimed
  refresh_claimed-Writes s none presented now drawn = (Written.kept, refl, refl)
  refresh_claimed-Writes s (some claims) presented now drawn =
      refresh_record-Writes s _ claims now drawn (found_by_hash s _)

  pub refresh_tokens-Writes :
      (s : Accounts) (presented : Text) (now : ℕ) (drawn : Drawn)
      → Writes s (refresh_tokens crypto manager passwords s presented now drawn).0
  unfolding refresh_tokens
  refresh_tokens-Writes s presented now drawn = refresh_claimed-Writes s _ presented now drawn

  logout_record-Writes :
      (s : Accounts) (found : Option RefreshToken) (claims : TokenClaims) (now : ℕ)
      → ((t : RefreshToken) → found ≡ some t → Memᴰ t s.tokens)
      → Writes s (logout_record crypto manager passwords s found claims now).0
  unfolding logout_record
  logout_record-Writes s none claims now m = (Written.kept, refl, refl)
  logout_record-Writes s (some token) claims now m =
      elim (Bool-cases
        (not (token.id == claims.token_id) || not (token.user_id == claims.subject))) [
          | inl e ↦ rw (e, if◌then◌else◌) (Written.kept, refl, refl)
          | inr e ↦
              rw (e, if◌then◌else◌)
                (append_each-Writes s _ _ _ _ _ (revoke-Writes s token now (m token refl)))
        ]

  logout_claimed-Writes :
      (s : Accounts) (claims : Option TokenClaims) (presented : Text) (now : ℕ)
      → Writes s (logout_claimed crypto manager passwords s claims presented now).0
  unfolding logout_claimed
  logout_claimed-Writes s none presented now = (Written.kept, refl, refl)
  logout_claimed-Writes s (some claims) presented now =
      logout_record-Writes s _ claims now (found_by_hash s _)

  pub logout-Writes :
      (s : Accounts) (presented : Text) (now : ℕ)
      → Writes s (logout crypto manager passwords s presented now).0
  unfolding logout
  logout-Writes s presented now = logout_claimed-Writes s _ presented now
