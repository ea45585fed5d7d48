-- ===== src/Accounts/Families.antt =====
-- Families of refresh tokens: what the handlers may do to the table of tokens, and what every such
-- write keeps: one key for each row, one live token at most in a family, and the end of a family.
pub mod Preservation
use mathlib.Core.List.{Memᴰ}
use reconcileflow_ai.Prelude.{
  ℕ, ◌+◌, ◌≤◌, ◌≡◌, refl, ap, inl, inr, Bool, true, false, not, ◌&&◌, Option, none, some, List, [],
  ◌∷◌, ◌++◌, arith, ◌==◌, if◌then◌else◌, Bool-cases, All,
}
use reconcileflow_ai.Prelude.Keyed.{
  one, total, total-append, put, Keyed, put-Keyed, append-Keyed, total-put, put-All, put-Memᴰ,
  put_is-Memᴰ,
}
use reconcileflow_ai.Accounts.Records.{RefreshToken}
use reconcileflow_ai.Accounts.Store.{is_some, is_live, revoke_matching}

-- The primary key.
abbrev pub token_id : RefreshToken → ℕ
token_id t = t.id

-- 1 for a live token of the family.
abbrev pub live : ℕ → RefreshToken → ℕ
live family t = one (t.family_id == family && is_live t)

-- How many tokens of a family are live.
abbrev pub live_tokens : ℕ → List RefreshToken → ℕ
live_tokens family = total (live family)

abbrev pub OneLive : List RefreshToken → Type 0
OneLive tokens = Keyed token_id tokens × ((family : ℕ) → live_tokens family tokens ≤ 1)

-- The family was begun, and none of its tokens is live.
abbrev pub Ended : ℕ → List RefreshToken → Type 0
Ended family tokens =
    (live_tokens family tokens ≡ 0) × (t : RefreshToken) × Memᴰ t tokens × (t.family_id ≡ family)

-- The writes of the handlers.
pub data Written (tokens : List RefreshToken) : List RefreshToken → Type 0 where
  kept : Written tokens tokens
  revoked_some : (p : RefreshToken → Bool) (at : ℕ) → Written tokens (revoke_matching p at tokens)
  revoked_one :
      (t t' : RefreshToken)
      → Memᴰ t tokens
      → t'.id ≡ t.id
      → t'.family_id ≡ t.family_id
      → is_live t' ≡ false
      → Written tokens (put token_id t' tokens)
  rotated :
      (t t' new : RefreshToken)
      → Memᴰ t tokens
      → is_live t ≡ true
      → t'.id ≡ t.id
      → t'.family_id ≡ t.family_id
      → is_live t' ≡ false
      → new.family_id ≡ t.family_id
      → is_live new ≡ true
      → All (λ x. (x.id == new.id) ≡ false) tokens
      → Written tokens (put token_id t' (tokens ++ new ∷ []))
  begun :
      (new : RefreshToken)
      → All (λ x. (x.id == new.id) ≡ false) tokens
      → All (λ x. (x.family_id == new.family_id) ≡ false) tokens
      → Written tokens (tokens ++ new ∷ [])

-- A row after the revocation of the live rows that pass a test.
abbrev pub revoked_row : (RefreshToken → Bool) → ℕ → RefreshToken → RefreshToken
revoked_row p at t = if p t && is_live t then record t { revoked_at = some at } else t

module _ (p : RefreshToken → Bool) (at : ℕ) where
  pub revoked_row-id : (t : RefreshToken) → (revoked_row p at t).id ≡ t.id
  revoked_row-id t = ground arith

  pub revoked_row-family : (t : RefreshToken) → (revoked_row p at t).family_id ≡ t.family_id
  revoked_row-family t = ground arith

  pub revoked_row_le :
      (family : ℕ) (t : RefreshToken) → live family (revoked_row p at t) ≤ live family t
  revoked_row_le family t = ground arith

  pub revoke_matching_le :
      (family : ℕ) (tokens : List RefreshToken)
      → live_tokens family (revoke_matching p at tokens) ≤ live_tokens family tokens
  unfolding revoke_matching total
  revoke_matching_le family [] = omega arith
  revoke_matching_le family (t ∷ tokens) =
      omega (arith, revoked_row_le family t, revoke_matching_le family tokens)

  revoke_matching_apart :
      (n : ℕ) (tokens : List RefreshToken)
      → All (λ x. (x.id == n) ≡ false) tokens
      → All (λ x. (x.id == n) ≡ false) (revoke_matching p at tokens)
  unfolding revoke_matching
  revoke_matching_apart n [] h = tt
  revoke_matching_apart n (t ∷ tokens) h =
      (rw (revoked_row-id t) h.0, revoke_matching_apart n tokens h.1)

  pub revoke_matching-Keyed :
      (tokens : List RefreshToken)
      → Keyed token_id tokens
      → Keyed token_id (revoke_matching p at tokens)
  unfolding revoke_matching
  revoke_matching-Keyed [] u = tt
  revoke_matching-Keyed (t ∷ tokens) u = (
    rw (revoked_row-id t) (revoke_matching_apart t.id tokens u.0),
    revoke_matching-Keyed tokens u.1,
  )

  pub revoke_matching-Memᴰ :
      (t : RefreshToken) (tokens : List RefreshToken)
      → Memᴰ t tokens
      → Memᴰ (revoked_row p at t) (revoke_matching p at tokens)
  unfolding revoke_matching
  revoke_matching-Memᴰ t [] m = elim m [ ]
  revoke_matching-Memᴰ t (x ∷ tokens) (Memᴰ.head e) = Memᴰ.head (ap (revoked_row p at) e)
  revoke_matching-Memᴰ t (x ∷ tokens) (Memᴰ.tail m) = Memᴰ.tail (revoke_matching-Memᴰ t tokens m)

-- The revocation of a family ends it.
pub revoke_matching_ends :
    (family at : ℕ) (tokens : List RefreshToken)
    → live_tokens family (revoke_matching (λ t. t.family_id == family) at tokens) ≡ 0
unfolding revoke_matching total
revoke_matching_ends family at [] = refl
revoke_matching_ends family at (t ∷ tokens) =
    let here : live family (revoked_row (λ t. t.family_id == family) at t) ≡ 0 = ground arith in
    omega (arith, here, revoke_matching_ends family at tokens)
