-- ===== src/Accounts/Samples.antt =====
-- A stand-in for the libraries, and a registered organization, for the tests.

use reconcileflow_ai.Prelude.{
  ℕ, zero, suc, ◌*◌, ◌≡◌, refl, true, ◌&&◌, Option, none, some, [], ◌∷◌, if◌then◌else◌, leb, ltb,
  arith, Text, text_eq, codes,
}
use reconcileflow_ai.Accounts.Records.{Accounts}
use reconcileflow_ai.Accounts.Tokens.{TokenType, access, refresh, Payload, Crypto, TokenManager}
use reconcileflow_ai.Accounts.Tokens.RoundTrip.{DecodesEncoded}
use reconcileflow_ai.Accounts.Auth.{Passwords, LoginSettings, Drawn}
use reconcileflow_ai.Accounts.Registration.{RegistrationRequest, NewIds, with_account}
use reconcileflow_ai.Accounts.Steps.{empty}

abbrev pub type_code : TokenType → ℕ
type_code TokenType.access = 0
type_code TokenType.refresh = 1

abbrev pub code_type : ℕ → TokenType
code_type zero = TokenType.access
code_type (suc n) = TokenType.refresh

-- A token is the list of the numbers of its payload.
abbrev pub plain_encode : Payload → Text → Text
plain_encode p secret = p.sub ∷ p.jti ∷ type_code p.type_of ∷ p.iat ∷ p.nbf ∷ p.exp ∷ []

abbrev pub plain_decode : Text → Text → Text → Text → ℕ → Option Payload
plain_decode (sub ∷ jti ∷ t ∷ iat ∷ nbf ∷ exp ∷ []) secret iss aud now =
    if leb (iat * 1_000_000) now && leb (nbf * 1_000_000) now && ltb now (exp * 1_000_000)
    then some record {
      sub = sub;
      jti = jti;
      type_of = code_type t;
      iss = iss;
      aud = aud;
      iat = iat;
      nbf = nbf;
      exp = exp;
    }
    else none
plain_decode _ secret iss aud now = none

abbrev pub plain_crypto : Crypto
plain_crypto = record { encode = plain_encode; decode = plain_decode; sha256_hex = λ token. token }

pub plain_crypto-DecodesEncoded : DecodesEncoded plain_crypto
plain_crypto-DecodesEncoded p secret now a b c i h k =
    let drawn : leb (p.iat * 1_000_000) now ≡ true = ground arith in
    let started : leb (p.nbf * 1_000_000) now ≡ true = ground arith in
    let lasts : ltb now (p.exp * 1_000_000) ≡ true = ground arith in
    rw (drawn, started, lasts, if◌then◌else◌) (same_payload p)
  where
    same_payload :
        (p : Payload)
        → ◌≡◌ {A = Option Payload}
            (some record p { type_of = code_type (type_code p.type_of) })
            (some p)
    same_payload p =
        elim p.type_of
          as (λ t.
            ◌≡◌ {A = Option Payload} (some record p { type_of = code_type (type_code t) })
              (some record p { type_of = t })) [ access ↦ refl | refresh ↦ refl ]

abbrev pub manager : TokenManager
manager = record {
  secret = codes "s";
  issuer = codes "api";
  audience = codes "web";
  access_ttl = 900_000_000;
  refresh_ttl = 86_400_000_000;
}

abbrev pub passwords : Passwords
passwords = record { hash = λ p. p; verify = text_eq }

abbrev pub settings : LoginSettings
settings = record { max_failed_attempts = 3; lockout_minutes = 15 }

abbrev pub drawn : Drawn
drawn = record { access_id = 20; refresh_id = 21; family_id = 7 }

abbrev pub request : RegistrationRequest
request = record {
  email = codes "a@b.io";
  password_hash = codes "pw";
  display_name = none;
  organization_name = codes "Acme Ltd";
}

abbrev pub ids : NewIds
ids = record { user_id = 1; organization_id = 2; membership_id = 3 }

abbrev pub suffix : ℕ → Text
suffix n = n ∷ []

abbrev pub registered : Accounts
registered = with_account empty request ids (codes "cme-td") 0
