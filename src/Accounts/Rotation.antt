-- ===== src/Accounts/Rotation.antt =====
-- The rotation of refresh tokens: what an answered request says of the token that was presented, and
-- what a token that is presented again does to its family.
use mathlib.Core.List.{Memᴰ}
use reconcileflow_ai.Prelude.{
  ℕ, ◌+◌, ◌<◌, ◌≡◌, refl, sym, ap, subst, inl, inr, true, false, not, ◌||◌, Option, none, some, [],
  ◌∷◌, ◌++◌, if◌then◌else◌, ◌==◌, leb, Bool-cases, arith, Text, text_eq,
}
use reconcileflow_ai.Prelude.Members.{All_of, Memᴰ-append, append-Memᴰ}
use reconcileflow_ai.Prelude.Keyed.{put, put-Memᴰ, put_is-Memᴰ}
use reconcileflow_ai.Jobs.Table.{find?-Memᴰ}
use reconcileflow_ai.Accounts.Records.{User, RefreshToken, Accounts, refresh_token_reused}
use reconcileflow_ai.Accounts.Tokens.{
  Crypto, TokenManager, TokenClaims, IssuedToken, issue, issue_refresh, decode_refresh,
  hash_refresh_token,
}
use reconcileflow_ai.Accounts.Store.{
  answered, refused, is_some, is_live, get_user, create_token, get_by_hash, rotate, put_token,
  replacement_of, replaced,
}
use reconcileflow_ai.Accounts.Auth.{
  Passwords, Drawn, TokenPair, refresh_for, refresh_accepted, refresh_record, refresh_claimed,
  refresh_tokens, refreshed, token_pair,
}
use reconcileflow_ai.Accounts.Answers.{
  bind_answered, answered_parts, create_token_lem, append_each-events, commit_answered,
}
use reconcileflow_ai.Accounts.Families.{
  token_id, Ended, revoke_matching_ends, revoked_row, revoked_row-family, revoke_matching-Memᴰ,
}

-- The request names the stored token: it decodes, and its hash and its claims are the token's.
abbrev pub Presents :
    Crypto → TokenManager → Accounts → Text → ℕ → TokenClaims → RefreshToken → Type 0
Presents crypto manager s presented now claims token =
    (decode_refresh crypto manager presented now ≡ some claims)
    × (get_by_hash s (hash_refresh_token crypto manager presented) ≡ some token)
    × ((token.id == claims.token_id) ≡ true)
    × ((token.user_id == claims.subject) ≡ true)

-- What a rotation writes: the row of the presented token is revoked and names its replacement, a
-- new row of the same family and user, which is live.
abbrev pub Rotates : Accounts → RefreshToken → ℕ → Text → ℕ → ℕ → Type 0
Rotates s' token id hash expires_at at =
    Memᴰ (replaced token id at) s'.tokens × Memᴰ (replacement_of token id hash expires_at) s'.tokens

rotate-Rotates :
    (s s' : Accounts) (token : RefreshToken) (id : ℕ) (hash : Text) (expires_at at : ℕ)
    → Memᴰ token s.tokens
    → rotate s token id hash expires_at at ≡ answered s'
    → Rotates s' token id hash expires_at at
unfolding rotate
rotate-Rotates s s' token id hash expires_at at m h =
    let new : RefreshToken = replacement_of token id hash expires_at in
    bind_answered (create_token s new) _ _ h λ s₁ created h1.
      let (e, apart) = create_token_lem s s₁ new created in
      let done : put_token s₁ (replaced token id at) ≡ s' = cc in
      let after : put token_id (replaced token id at) (s.tokens ++ new ∷ []) ≡ s'.tokens =
        subst (λ (v : Accounts). put token_id (replaced token id at) v.tokens ≡ s'.tokens) e
          (ap (λ (v : Accounts). v.tokens) done) in
      let apart_here =
        All_of (λ x. (x.id == id || text_eq x.token_hash hash) ≡ false) token s.tokens apart m in
      let other : (new.id == (replaced token id at).id) ≡ false = ground arith in
      subst (λ tokens. Memᴰ (replaced token id at) tokens × Memᴰ new tokens) after
        (
          put_is-Memᴰ token_id token (replaced token id at) (s.tokens ++ new ∷ [])
              (Memᴰ-append (new ∷ []) m) refl,
          put-Memᴰ token_id new (replaced token id at) (s.tokens ++ new ∷ [])
              (append-Memᴰ new s.tokens) other,
        )

module _ (crypto : Crypto) (manager : TokenManager) (passwords : Passwords) where
  -- A refresh with a token that is revoked already is refused as a reuse, and leaves no live token in
  -- the token's family.
  pub reuse_ends_family :
      (s : Accounts) (presented : Text) (now : ℕ) (drawn : Drawn) (claims : TokenClaims)
      (token : RefreshToken)
      → Presents crypto manager s presented now claims token
      → is_live token ≡ false
      → let (s', answer) = refresh_tokens crypto manager passwords s presented now drawn in
        (answer ≡ refused refresh_token_reused) × Ended token.family_id s'.tokens
  unfolding refresh_tokens refresh_claimed refresh_record get_by_hash
  reuse_ends_family s presented now drawn claims token (d, f, i, u) dead =
      let here : Memᴰ token s.tokens =
        (find?-Memᴰ (λ x. text_eq x.token_hash (hash_refresh_token crypto manager presented)) token
          s.tokens f).0 in
      let revoked : is_some token.revoked_at ≡ true = ground arith in
      rw (d, f, i, u, revoked, if◌then◌else◌)
        (
          refl,
          (
            revoke_matching_ends token.family_id now s.tokens,
            revoked_row (λ t. t.family_id == token.family_id) now token,
            revoke_matching-Memᴰ (λ t. t.family_id == token.family_id) now token s.tokens here,
            revoked_row-family (λ t. t.family_id == token.family_id) now token,
          ),
        )

  -- What a refresh that answers has found, and what it leaves.
  abbrev pub Refreshed : Accounts → Accounts → Text → ℕ → Drawn → TokenPair → Type 0
  Refreshed s s' presented now drawn pair =
      (claims : TokenClaims) × (token : RefreshToken) × (user : User) × Presents crypto manager s
        presented now claims token
      × (is_live token ≡ true)
      × (now < token.expires_at)
      × (get_user s token.user_id ≡ some user)
      × (user.is_active ≡ true)
      × Rotates s' token drawn.refresh_id (hash_refresh_token crypto manager pair.refresh_token)
          (now + manager.refresh_ttl) now

  refresh_accepted-Rotates :
      (s s' : Accounts) (token : RefreshToken) (claims : TokenClaims) (user : User) (now : ℕ)
      (drawn : Drawn) (pair : TokenPair)
      → Memᴰ token s.tokens
      → refresh_accepted crypto manager passwords s token claims user now drawn
        ≡ answered (s', pair)
      → Rotates s' token drawn.refresh_id
          (hash_refresh_token crypto manager pair.refresh_token)
          (now + manager.refresh_ttl)
          now
  unfolding refresh_accepted issue
  refresh_accepted-Rotates s s' token claims user now drawn pair m h =
      let replacement : IssuedToken =
        issue_refresh crypto manager claims.subject now drawn.refresh_id in
      let hash : Text = hash_refresh_token crypto manager replacement.value in
      let pair' : TokenPair = token_pair crypto manager passwords claims now drawn in
      bind_answered (rotate s token replacement.token_id hash replacement.expires_at now)
        (λ s₁. answered (refreshed crypto manager passwords s user s₁, pair')) (s', pair) h
        λ s₁ turned h1.
          let (e, ep) =
            answered_parts (refreshed crypto manager passwords s user s₁) s' pair' pair h1 in
          let rotates : Rotates s₁ token drawn.refresh_id hash (now + manager.refresh_ttl) now =
            rotate-Rotates s s₁ token drawn.refresh_id hash _ now m turned in
          subst
            (λ (p : TokenPair).
              Rotates s' token drawn.refresh_id (hash_refresh_token crypto manager p.refresh_token)
                (now + manager.refresh_ttl) now)
            ep
            (subst
              (λ (v : Accounts).
                Rotates v token drawn.refresh_id hash (now + manager.refresh_ttl) now)
              e
              (subst
                (λ (v : Accounts).
                  Rotates v token drawn.refresh_id hash (now + manager.refresh_ttl) now)
                (sym (append_each-events s₁ _ _ _ _)) rotates))

  refresh_for-Refreshed :
      (s : Accounts) (presented : Text) (claims : TokenClaims) (token : RefreshToken)
      (found : Option User) (now : ℕ) (drawn : Drawn) (pair : TokenPair)
      → Presents crypto manager s presented now claims token
      → is_live token ≡ true
      → leb token.expires_at now ≡ false
      → get_user s token.user_id ≡ found
      → Memᴰ token s.tokens
      → let (s', answer) = refresh_for crypto manager passwords s token claims found now drawn in
        answer ≡ answered pair → Refreshed s s' presented now drawn pair
  unfolding refresh_for
  refresh_for-Refreshed s presented claims token none now drawn pair p l x f m = λ h. absurd (cc)
  refresh_for-Refreshed s presented claims token (some user) now drawn pair p l x f m =
      elim (Bool-cases user.is_active) [
        | inr e ↦ rw (e, if◌then◌else◌) (λ h. absurd (cc))
        | inl e ↦
            rw (e, if◌then◌else◌)
              (λ h.
                let (s', w, es) =
                  commit_answered s
                    (refresh_accepted crypto manager passwords s token claims user now drawn) pair
                    h in
                rw es (
                  claims,
                  token,
                  user,
                  p,
                  l,
                  ground arith,
                  f,
                  e,
                  refresh_accepted-Rotates s s' token claims user now drawn pair m w,
                ))
      ]

  refresh_record-Refreshed :
      (s : Accounts) (presented : Text) (claims : TokenClaims) (found : Option RefreshToken)
      (now : ℕ) (drawn : Drawn) (pair : TokenPair)
      → decode_refresh crypto manager presented now ≡ some claims
      → get_by_hash s (hash_refresh_token crypto manager presented) ≡ found
      → let (s', answer) = refresh_record crypto manager passwords s found claims now drawn in
        answer ≡ answered pair → Refreshed s s' presented now drawn pair
  unfolding refresh_record get_by_hash
  refresh_record-Refreshed s presented claims none now drawn pair d f = λ h. absurd (cc)
  refresh_record-Refreshed s presented claims (some token) now drawn pair d f =
      let here : Memᴰ token s.tokens =
        (find?-Memᴰ (λ x. text_eq x.token_hash (hash_refresh_token crypto manager presented)) token
          s.tokens f).0 in
      elim (Bool-cases
        (not (token.id == claims.token_id) || not (token.user_id == claims.subject))) [
          | inl e ↦ rw (e, if◌then◌else◌) (λ h. absurd (cc))
          | inr e ↦ elim (Bool-cases (is_some token.revoked_at)) [
            | inl r ↦ rw (e, r, if◌then◌else◌) (λ h. absurd (cc))
            | inr r ↦ elim (Bool-cases (leb token.expires_at now)) [
              | inl x ↦ rw (e, r, x, if◌then◌else◌) (λ h. absurd (cc))
              | inr x ↦
                  rw (e, r, x, if◌then◌else◌)
                    (refresh_for-Refreshed s presented claims token (get_user s token.user_id) now
                      drawn pair (d, f, ground arith, ground arith) (rw r refl) x refl here)
            ]
          ]
        ]

  -- A refresh that answers was given a token that decodes, is stored with the claims' identifier and
  -- user, is live and has not expired, and whose user is active; it leaves the token's row revoked
  -- with its replacement named, and the replacement, which is live, in the same family.
  pub refresh_answers :
      (s : Accounts) (presented : Text) (now : ℕ) (drawn : Drawn) (pair : TokenPair)
      → (refresh_tokens crypto manager passwords s presented now drawn).1 ≡ answered pair
      → Refreshed s
          (refresh_tokens crypto manager passwords s presented now drawn).0
          presented
          now
          drawn
          pair
  unfolding refresh_tokens refresh_claimed
  refresh_answers s presented now drawn pair =
      claimed (decode_refresh crypto manager presented now) refl
    where
      claimed :
          (claims : Option TokenClaims)
          → decode_refresh crypto manager presented now ≡ claims
          → let (s', answer) =
              refresh_claimed crypto manager passwords s claims presented now drawn in
            answer ≡ answered pair → Refreshed s s' presented now drawn pair
      claimed none d = λ h. absurd (cc)
      claimed (some claims) d = refresh_record-Refreshed s presented claims _ now drawn pair d refl
