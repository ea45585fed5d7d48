-- ===== src/Accounts/Answers.antt =====
-- What an answered chain says of its parts, what a unit of work leaves, and what the security events
-- leave alone.

use reconcileflow_ai.Prelude.{
  ℕ, ◌≡◌, refl, ap, inl, inr, Bool, true, false, ◌||◌, Option, none, some, List, [], ◌∷◌, ◌++◌, any,
  ◌==◌, Bool-cases, All, arith, text_eq,
}
use reconcileflow_ai.Accounts.Records.{
  Membership, RefreshToken, SecurityEventType, SecurityDetails, Accounts, ApiError, User,
}
use reconcileflow_ai.Accounts.Store.{
  Answer, answered, refused, ◌>>=◌, ◌>>◌, refuse_if, or_refuse, commit, create_token, append_each,
}
use reconcileflow_ai.Accounts.Auth.{append_failures}

pub bind_answered {ℓ κ μ} :
    {A : Type ℓ} {B : Type κ} {C : Type μ} (m : Answer A) (f : A → Answer B) (b : B)
    → (m >>= f) ≡ answered b
    → ((a : A) → m ≡ answered a → f a ≡ answered b → C)
    → C
bind_answered (answered a) f b h k = k a refl h
bind_answered (refused e) f b h k = absurd (cc)

-- The call goes on where the test fails.
pub unless {κ μ} :
    {B : Type κ} {C : Type μ} (t : Bool) (e : ApiError) (m : Answer B) (b : B)
    → (refuse_if t e >> m) ≡ answered b
    → (t ≡ false → m ≡ answered b → C)
    → C
unless true e m b h k = absurd (cc)
unless false e m b h k = k refl h

pub or_refuse-some {ℓ} :
    {A : Type ℓ} (o : Option A) (e : ApiError) (a : A) → or_refuse o e ≡ answered a → o ≡ some a
or_refuse-some none e a h = absurd (cc)
or_refuse-some (some b) e a h = cc

-- A unit of work leaves the tables as they were, or as its answer has them.
pub commit_leaves {ℓ κ} :
    {A : Type ℓ} (P : Accounts → Type κ) (s : Accounts) (m : Answer (Accounts × A))
    → P s
    → ((s' : Accounts) (a : A) → m ≡ answered (s', a) → P s')
    → P (commit s m).0
commit_leaves P s (answered (s', a)) p k = k s' a refl
commit_leaves P s (refused e) p k = p

pub answered_parts {ℓ} :
    {A : Type ℓ} (s s' : Accounts) (a a' : A)
    → ◌≡◌ {A = Answer (Accounts × A)} (answered (s, a)) (answered (s', a'))
    → (s ≡ s') × (a ≡ a')
answered_parts s s' a a' h = (cc, cc)

pub any-false {ℓ} :
    {A : Type ℓ} (p : A → Bool) (xs : List A) → any p xs ≡ false → All (λ x. p x ≡ false) xs
unfolding any
any-false p [] h = tt
any-false p (x ∷ xs) h = elim (Bool-cases (p x)) [
  | inl e ↦ absurd (ground arith)
  | inr e ↦ (e, any-false p xs (ground arith))
]

pub create_token_lem :
    (s s' : Accounts) (token : RefreshToken)
    → create_token s token ≡ answered s'
    → (s' ≡ record s { tokens = s.tokens ++ token ∷ [] })
      × All (λ t. (t.id == token.id || text_eq t.token_hash token.token_hash) ≡ false) s.tokens
unfolding create_token
create_token_lem s s' token h =
    let taken : Bool =
      any (λ t. t.id == token.id || text_eq t.token_hash token.token_hash) s.tokens in
    elim (Bool-cases taken) [
      | inl e ↦ absurd (ground arith)
      | inr e ↦ (ground arith, any-false _ s.tokens e)
    ]

-- Events leave the other tables alone.
pub append_each-events :
    (s : Accounts) (actor : ℕ) (t : SecurityEventType) (d : SecurityDetails) (ms : List Membership)
    → append_each s actor t d ms ≡ record s { events = (append_each s actor t d ms).events }
unfolding append_each
append_each-events s actor t d [] = refl
append_each-events s actor t d (m ∷ ms) = append_each-events _ actor t d ms

pub append_failures-events :
    (s : Accounts) (user : User) (newly_locked : Bool) (lockout : ℕ) (ms : List Membership)
    → append_failures s user newly_locked lockout ms
      ≡ record s { events = (append_failures s user newly_locked lockout ms).events }
unfolding append_failures
append_failures-events s user b lockout [] = refl
append_failures-events s user true lockout (m ∷ ms) = append_failures-events _ user true lockout ms
append_failures-events s user false lockout (m ∷ ms) =
    append_failures-events _ user false lockout ms

-- A unit of work that answers leaves the tables of its answer.
pub commit_answered {ℓ} :
    {A : Type ℓ} (s : Accounts) (m : Answer (Accounts × A)) (a : A)
    → (commit s m).1 ≡ answered a
    → (s' : Accounts) × (m ≡ answered (s', a)) × ((commit s m).0 ≡ s')
commit_answered s (answered (s', b)) a h =
    let e : b ≡ a = cc in (s', ap (λ c. answered (s', c)) e, refl)
commit_answered s (refused e) a h = absurd (cc)

pub not_refused : (t : Bool) (e : ApiError) → refuse_if t e ≡ answered tt → t ≡ false
not_refused true e h = absurd (cc)
not_refused false e h = refl

pub parts_false : (b c : Bool) → (b || c) ≡ false → (b ≡ false) × (c ≡ false)
parts_false true c h = absurd (cc)
parts_false false c h = (refl, h)
