-- ===== src/Accounts/Protection.antt =====
-- Login protection: what a login that answers was given, and the bounds of the failed attempts.
use mathlib.Core.List.{Memᴰ}
use reconcileflow_ai.Prelude.{
  ℕ, ◌+◌, ◌<◌, ◌≤◌, ◌≡◌, refl, sym, ap, ◌∙◌, subst, inl, inr, Bool, true, false, not, ◌||◌, Option,
  none, some, List, if◌then◌else◌, ◌==◌, leb, Bool-cases, Option-cases, All, arith, Text, text_eq,
}
use reconcileflow_ai.Prelude.Members.{All_of}
use reconcileflow_ai.Prelude.Keyed.{put, put-All}
use reconcileflow_ai.Jobs.Table.{find?-Memᴰ}
use reconcileflow_ai.Accounts.Records.{User, Accounts}
use reconcileflow_ai.Accounts.Tokens.{Crypto, TokenManager}
use reconcileflow_ai.Accounts.Store.{
  answered, is_some, get_by_email, put_user, create_token, record_failed_login,
  reset_login_protection, append_each, active_memberships,
}
use reconcileflow_ai.Accounts.Auth.{
  Passwords, LoginSettings, Drawn, LoginResponse, lock_is_active, failed_user, login_failed,
  login_accepted, login_user, login, login_token, login_response, logged_in,
}
use reconcileflow_ai.Accounts.Answers.{
  bind_answered, answered_parts, create_token_lem, append_each-events, append_failures-events,
  commit_leaves, commit_answered,
}

-- The failed attempts are at most the limit, and below it where no lock is set.
abbrev pub Bounded : ℕ → User → Type 0
Bounded limit u =
    (u.failed_login_attempts ≤ limit) × (u.locked_until ≡ none → u.failed_login_attempts < limit)

reset-Bounded :
    (limit : ℕ) (u : User) → 1 ≤ limit → Bounded limit u → Bounded limit (reset_login_protection u)
unfolding reset_login_protection
reset-Bounded limit u h b =
    elim (Bool-cases (not (u.failed_login_attempts == 0) || is_some u.locked_until)) [
      | inl e ↦ rw (e, if◌then◌else◌) (omega arith, λ _. omega (arith, h))
      | inr e ↦ rw (e, if◌then◌else◌) b
    ]

record_failed_login-Bounded :
    (limit until : ℕ) (u : User)
    → u.failed_login_attempts < limit
    → Bounded limit (record_failed_login u limit until).0
unfolding record_failed_login
record_failed_login-Bounded limit until u h =
    elim (Bool-cases (leb limit (u.failed_login_attempts + 1))) [
      | inl e ↦ rw (e, if◌then◌else◌) (omega (arith, h), λ k. absurd (cc))
      | inr e ↦ rw (e, if◌then◌else◌) (omega (arith, h), λ _. ground arith)
    ]

failed_user-Bounded :
    (settings : LoginSettings) (u : User) (now : ℕ)
    → 1 ≤ settings.max_failed_attempts
    → Bounded settings.max_failed_attempts u
    → Bounded settings.max_failed_attempts (failed_user settings u now).0
unfolding failed_user reset_login_protection
failed_user-Bounded settings u now h b = elim (Option-cases u.locked_until) [
  | inl e ↦
      let below = b.1 e in
      record_failed_login-Bounded settings.max_failed_attempts _ _
        (rw (e, is_some, if◌then◌else◌) below)
  | inr (at, e) ↦ record_failed_login-Bounded settings.max_failed_attempts _ _ (ground arith)
]

get_by_email-Memᴰ :
    (s : Accounts) (email : Text) (u : User) → get_by_email s email ≡ some u → Memᴰ u s.users
unfolding get_by_email
get_by_email-Memᴰ s email u h = (find?-Memᴰ (λ x. text_eq x.email email) u s.users h).0

abbrev AllBounded : ℕ → Accounts → Type 0
AllBounded limit s = All (Bounded limit) s.users

put_user-AllBounded :
    (limit : ℕ) (s : Accounts) (u : User)
    → AllBounded limit s
    → Bounded limit u
    → AllBounded limit (put_user s u)
put_user-AllBounded limit s u h b = put-All (λ x. x.id) (Bounded limit) u s.users b h

append_each-AllBounded :
    (limit : ℕ) (s : Accounts) (actor : ℕ) (t : _) (d : _) (ms : _)
    → AllBounded limit s
    → AllBounded limit (append_each s actor t d ms)
append_each-AllBounded limit s actor t d ms h =
    subst (AllBounded limit) (sym (append_each-events s actor t d ms)) h

login_failed-AllBounded :
    (s : Accounts) (settings : LoginSettings) (u : User) (now : ℕ)
    → 1 ≤ settings.max_failed_attempts
    → AllBounded settings.max_failed_attempts s
    → Bounded settings.max_failed_attempts u
    → AllBounded settings.max_failed_attempts (login_failed s settings u now)
unfolding login_failed
login_failed-AllBounded s settings u now h bs b =
    let after : User × Bool = failed_user settings u now in
    subst (AllBounded settings.max_failed_attempts)
      (sym (
        append_failures-events (put_user s after.0) after.0 after.1 settings.lockout_minutes
          (active_memberships s u.id)))
      (put_user-AllBounded settings.max_failed_attempts s after.0 bs
        (failed_user-Bounded settings u now h b))

module _ (crypto : Crypto) (manager : TokenManager) (passwords : Passwords) where
  login_accepted-users :
      (s s' : Accounts) (user : User) (now : ℕ) (drawn : Drawn) (r : LoginResponse)
      → login_accepted crypto manager passwords s user now drawn ≡ answered (s', r)
      → s'.users ≡ put (λ x. x.id) (reset_login_protection user) s.users
  unfolding login_accepted
  login_accepted-users s s' user now drawn r h =
      let token = login_token crypto manager passwords user now drawn in
      let reset : Accounts = put_user s (reset_login_protection user) in
      let response : LoginResponse = login_response crypto manager passwords s user now drawn in
      bind_answered (create_token reset token)
        (λ s₁. answered (logged_in crypto manager passwords s user s₁, response)) (s', r) h
        λ s₁ created h1.
          let (e, apart) = create_token_lem reset s₁ token created in
          let (e₁, _) =
            answered_parts (logged_in crypto manager passwords s user s₁) s' response r h1 in
          let users_of : (v : Accounts) → List User = λ v. v.users in
          sym (ap users_of e₁)
          ∙ ap users_of (append_each-events s₁ _ _ _ (active_memberships s user.id))
          ∙ ap users_of e

  login_user-AllBounded :
      (s : Accounts) (settings : LoginSettings) (found : Option User) (password : Text) (now : ℕ)
      (drawn : Drawn)
      → 1 ≤ settings.max_failed_attempts
      → AllBounded settings.max_failed_attempts s
      → ((u : User) → found ≡ some u → Memᴰ u s.users)
      → AllBounded settings.max_failed_attempts
          (login_user crypto manager passwords s settings found password now drawn).0
  unfolding login_user
  login_user-AllBounded s settings none password now drawn h bs m = bs
  login_user-AllBounded s settings (some user) password now drawn h bs m =
      let limit : ℕ = settings.max_failed_attempts in
      let b : Bounded limit user = All_of (Bounded limit) user s.users bs (m user refl) in
      elim (Bool-cases (lock_is_active user now || not user.is_active)) [
        | inl e ↦ elim (Bool-cases (lock_is_active user now)) [
          | inl l ↦ rw (e, l, if◌then◌else◌) (append_each-AllBounded limit s _ _ _ _ bs)
          | inr l ↦ rw (e, l, if◌then◌else◌) bs
        ]
        | inr e ↦ elim (Bool-cases (passwords.verify password user.password_hash)) [
          | inr v ↦ rw (e, v, if◌then◌else◌) (login_failed-AllBounded s settings user now h bs b)
          | inl v ↦
              rw (e, v, if◌then◌else◌)
                (commit_leaves (AllBounded limit) s
                  (login_accepted crypto manager passwords s user now drawn) bs
                  (λ s' r w.
                    subst (All (Bounded limit)) (sym (login_accepted-users s s' user now drawn r w))
                      (put-All (λ x. x.id) (Bounded limit) (reset_login_protection user) s.users
                        (reset-Bounded limit user h b) bs)))
        ]
      ]

  -- With a positive limit of failed attempts, a login keeps the attempts of every user at the limit
  -- at most, and below it for a user without a lock.
  pub login-Bounded :
      (s : Accounts) (settings : LoginSettings) (email password : Text) (now : ℕ) (drawn : Drawn)
      → 1 ≤ settings.max_failed_attempts
      → All (Bounded settings.max_failed_attempts) s.users
      → All
          (Bounded settings.max_failed_attempts)
          (login crypto manager passwords s settings email password now drawn).0.users
  unfolding login
  login-Bounded s settings email password now drawn h bs =
      login_user-AllBounded s settings (get_by_email s email) password now drawn h bs
        (get_by_email-Memᴰ s email)

  -- What a login that answers has found, and what it leaves.
  abbrev pub LoggedIn : Accounts → Accounts → Text → Text → ℕ → Type 0
  LoggedIn s s' email password now =
      (user : User) × (get_by_email s email ≡ some user)
      × (user.is_active ≡ true)
      × (lock_is_active user now ≡ false)
      × (passwords.verify password user.password_hash ≡ true)
      × (s'.users ≡ put (λ x. x.id) (reset_login_protection user) s.users)

  login_user-LoggedIn :
      (s : Accounts) (settings : LoginSettings) (found : Option User) (email password : Text)
      (now : ℕ) (drawn : Drawn) (r : LoginResponse)
      → get_by_email s email ≡ found
      → (login_user crypto manager passwords s settings found password now drawn).1 ≡ answered r
      → LoggedIn s
          (login_user crypto manager passwords s settings found password now drawn).0
          email
          password
          now
  unfolding login_user
  login_user-LoggedIn s settings none email password now drawn r f = λ h. absurd (cc)
  login_user-LoggedIn s settings (some user) email password now drawn r f =
      elim (Bool-cases (lock_is_active user now || not user.is_active)) [
        | inl e ↦ rw (e, if◌then◌else◌) (λ h. absurd (cc))
        | inr e ↦ elim (Bool-cases (passwords.verify password user.password_hash)) [
          | inr v ↦ rw (e, v, if◌then◌else◌) (λ h. absurd (cc))
          | inl v ↦
              rw (e, v, if◌then◌else◌)
                (λ h.
                  let accepted = login_accepted crypto manager passwords s user now drawn in
                  let (s', w, es) = commit_answered s accepted r h in
                  rw es (
                    user,
                    f,
                    ground arith,
                    ground arith,
                    v,
                    login_accepted-users s s' user now drawn r w,
                  ))
        ]
      ]

  -- A login that answers was given the email of a stored user, who is active and not locked at that
  -- time, and a password that verifies against the stored hash; it leaves the users as they were but
  -- for this one, whose login protection is reset.
  pub login_answers :
      (s : Accounts) (settings : LoginSettings) (email password : Text) (now : ℕ) (drawn : Drawn)
      (r : LoginResponse)
      → (login crypto manager passwords s settings email password now drawn).1 ≡ answered r
      → LoggedIn s
          (login crypto manager passwords s settings email password now drawn).0
          email
          password
          now
  unfolding login
  login_answers s settings email password now drawn r =
      login_user-LoggedIn s settings (get_by_email s email) email password now drawn r refl
