-- ===== src/Accounts/Families/Preservation.antt =====
-- Families of refresh tokens under every write of the handlers to the table of tokens.
use mathlib.Core.List.{Memᴰ}
use reconcileflow_ai.Prelude.{
  ℕ, ◌+◌, ◌≤◌, ◌≡◌, refl, ◌∙◌, inl, inr, true, false, ◌&&◌, List, [], ◌∷◌, ◌++◌, arith, ◌==◌,
  Bool-cases, All,
}
use reconcileflow_ai.Prelude.Members.{All_of, Memᴰ-append}
use reconcileflow_ai.Prelude.Keyed.{
  one_le, total, total-append, put, Keyed, put-Keyed, append-Keyed, total-put, put_is-Memᴰ,
  put-Memᴰ, same_row,
}
use reconcileflow_ai.Accounts.Records.{RefreshToken}
use reconcileflow_ai.Accounts.Store.{is_live}
use reconcileflow_ai.Accounts.Families.{
  token_id, live, live_tokens, OneLive, Ended, Written, revoked_row, revoked_row-family,
  revoke_matching_le, revoke_matching-Keyed, revoke_matching-Memᴰ,
}

live_of_dead : (family : ℕ) (t : RefreshToken) → is_live t ≡ false → live family t ≡ 0
live_of_dead family t h = ground arith

live_tokens-append_one :
    (family : ℕ) (tokens : List RefreshToken) (new : RefreshToken)
    → live_tokens family (tokens ++ new ∷ []) ≡ live_tokens family tokens + live family new
unfolding total
live_tokens-append_one family tokens new =
    omega (arith, total-append (live family) tokens (new ∷ []))

-- A rotation moves no count of live tokens.
rotated_same :
    (family : ℕ) (tokens : List RefreshToken) (t t' new : RefreshToken)
    → Keyed token_id tokens
    → Memᴰ t tokens
    → is_live t ≡ true
    → t'.id ≡ t.id
    → is_live t' ≡ false
    → new.family_id ≡ t.family_id
    → is_live new ≡ true
    → All (λ x. (x.id == new.id) ≡ false) tokens
    → live_tokens family (put token_id t' (tokens ++ new ∷ [])) ≡ live_tokens family tokens
rotated_same family tokens t t' new u m lt e lt' en ln apart =
    let same : live family new ≡ live family t = rw (en, ln, lt) refl in
    omega (
      arith,
      same,
      live_of_dead family t' lt',
      live_tokens-append_one family tokens new,
      total-put (live family) token_id t t' (tokens ++ new ∷ [])
          (append-Keyed token_id tokens new u apart) (Memᴰ-append (new ∷ []) m) e,
    )

revoked_one_le :
    (family : ℕ) (tokens : List RefreshToken) (t t' : RefreshToken)
    → Keyed token_id tokens
    → Memᴰ t tokens
    → t'.id ≡ t.id
    → is_live t' ≡ false
    → live_tokens family (put token_id t' tokens) ≤ live_tokens family tokens
revoked_one_le family tokens t t' u m e l =
    omega (arith, live_of_dead family t' l, total-put (live family) token_id t t' tokens u m e)

-- No token of a family that no row names.
no_live_tokens :
    (family : ℕ) (tokens : List RefreshToken)
    → All (λ x. (x.family_id == family) ≡ false) tokens
    → live_tokens family tokens ≡ 0
unfolding total
no_live_tokens family [] h = refl
no_live_tokens family (t ∷ tokens) h =
    let here : live family t ≡ 0 = rw h.0 refl in
    omega (arith, here, no_live_tokens family tokens h.1)

begun_le :
    (family : ℕ) (tokens : List RefreshToken) (new : RefreshToken)
    → ((f : ℕ) → live_tokens f tokens ≤ 1)
    → All (λ x. (x.family_id == new.family_id) ≡ false) tokens
    → live_tokens family (tokens ++ new ∷ []) ≤ 1
begun_le family tokens new small apart = elim (Bool-cases (new.family_id == family)) [
  | inl e ↦
      let same : new.family_id ≡ family = ground arith in
      let none_yet : live_tokens family tokens ≡ 0 =
        no_live_tokens family tokens (rw same at apart) in
      omega (
        arith,
        none_yet,
        live_tokens-append_one family tokens new,
        one_le (new.family_id == family && is_live new),
      )
  | inr e ↦
      let here : live family new ≡ 0 = rw e refl in
      omega (arith, here, small family, live_tokens-append_one family tokens new)
]

pub Written-OneLive :
    (tokens later : List RefreshToken) → Written tokens later → OneLive tokens → OneLive later
Written-OneLive tokens _ Written.kept h = h
Written-OneLive tokens _ (Written.revoked_some p at) h = (
  revoke_matching-Keyed p at tokens h.0,
  λ family. omega (arith, h.1 family, revoke_matching_le p at family tokens),
)
Written-OneLive tokens _ (Written.revoked_one t t' m e ef l) h = (
  put-Keyed token_id t' tokens h.0,
  λ family. omega (arith, h.1 family, revoked_one_le family tokens t t' h.0 m e l),
)
Written-OneLive tokens _ (Written.rotated t t' new m lt e ef l en ln apart) h = (
  put-Keyed token_id t' (tokens ++ new ∷ []) (append-Keyed token_id tokens new h.0 apart),
  λ family. omega (arith, h.1 family, rotated_same family tokens t t' new h.0 m lt e l en ln apart),
)
Written-OneLive tokens _ (Written.begun new apart new_family) h = (
  append-Keyed token_id tokens new h.0 apart,
  λ family. begun_le family tokens new h.1 new_family,
)

-- A row with the family of the one that is replaced.
put_names :
    (x t' : RefreshToken) (t : RefreshToken) (tokens : List RefreshToken) (family : ℕ)
    → Keyed token_id tokens
    → Memᴰ t tokens
    → Memᴰ x tokens
    → t'.id ≡ t.id
    → t'.family_id ≡ t.family_id
    → x.family_id ≡ family
    → (y : RefreshToken) × Memᴰ y (put token_id t' tokens) × (y.family_id ≡ family)
put_names x t' t tokens family u m n e ef h = elim (Bool-cases (x.id == t'.id)) [
  | inl k ↦
      let k' : x.id ≡ t.id = ground arith in
      let same : x ≡ t = same_row token_id x t tokens u n m k' in
      (t', put_is-Memᴰ token_id t t' tokens m e, rw (ef, ← same) h)
  | inr k ↦ (x, put-Memᴰ token_id x t' tokens n k, h)
]

-- A family that has ended stays so, unless a write begins it again.
pub Written-Ended :
    (tokens later : List RefreshToken) (family : ℕ)
    → Written tokens later
    → Keyed token_id tokens
    → Ended family tokens
    → Ended family later
Written-Ended tokens _ family Written.kept u h = h
Written-Ended tokens _ family (Written.revoked_some p at) u (zero_live, x, m, e) = (
  omega (arith, revoke_matching_le p at family tokens),
  revoked_row p at x,
  revoke_matching-Memᴰ p at x tokens m,
  revoked_row-family p at x ∙ e,
)
Written-Ended tokens _ family (Written.revoked_one t t' m k ef l) u (zero_live, x, n, e) =
    let (y, n', e') = put_names x t' t tokens family u m n k ef e in
    (omega (arith, revoked_one_le family tokens t t' u m k l), y, n', e')
Written-Ended tokens _ family (Written.rotated t t' new m lt k ef l en ln apart) u (z, x, n, e) =
    let (y, n', e') =
      put_names x t' t (tokens ++ new ∷ []) family (append-Keyed token_id tokens new u apart)
        (Memᴰ-append (new ∷ []) m) (Memᴰ-append (new ∷ []) n) k ef e in
    (rotated_same family tokens t t' new u m lt k l en ln apart ∙ z, y, n', e')
Written-Ended tokens _ family (Written.begun new apart new_family) u (z, x, n, e) =
    let other = All_of (λ y. (y.family_id == new.family_id) ≡ false) x tokens new_family n in
    let here : live family new ≡ 0 =
      let away : (new.family_id == family) ≡ false = ground arith in rw away refl in
    (
      omega (arith, z, here, live_tokens-append_one family tokens new),
      x,
      Memᴰ-append (new ∷ []) n,
      e,
    )
