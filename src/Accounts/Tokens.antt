-- ===== src/Accounts/Tokens.antt =====
-- backend/src/reconcileflow/auth/tokens.py: signed tokens. The JWT library and SHA-256 are
-- parameters. The text of an identifier is identified with the identifier.
pub mod RoundTrip
use reconcileflow_ai.Prelude.{
  ℕ, ◌+◌, ◌*◌, ◌/◌, Bool, true, false, Option, none, some, Text, if◌then◌else◌,
}

pub data TokenType : Type 0 where
  access refresh : TokenType

unfoldable pub same_type : TokenType → TokenType → Bool
same_type TokenType.access TokenType.access = true
same_type TokenType.refresh TokenType.refresh = true
same_type _ _ = false

-- `TokenClaims`
pub record TokenClaims : Type 0 where
  pub subject : ℕ
  pub token_id : ℕ
  pub token_type : TokenType
  pub expires_at : ℕ

pub record IssuedToken : Type 0 where
  pub value : Text
  pub token_id : ℕ
  pub expires_at : ℕ

-- The payload of a token. The library writes its times in seconds.
pub record Payload : Type 0 where
  pub sub : ℕ
  pub jti : ℕ
  pub type_of : TokenType
  pub iss : Text
  pub aud : Text
  pub iat : ℕ
  pub nbf : ℕ
  pub exp : ℕ

-- What the code calls of the libraries `jwt` and `hashlib`: `decode token secret issuer audience now`
-- is the payload of a token that passes every check of the library, and `none` where it raises.
pub record Crypto : Type 0 where
  pub encode : Payload → Text → Text
  pub decode : Text → Text → Text → Text → ℕ → Option Payload
  pub sha256_hex : Text → Text

-- The configuration of a `TokenManager`, its lifetimes in microseconds.
pub record TokenManager : Type 0 where
  pub secret : Text
  pub issuer : Text
  pub audience : Text
  pub access_ttl : ℕ
  pub refresh_ttl : ℕ

-- A time in whole seconds, as a token carries it, and back.
unfoldable pub timestamp : ℕ → ℕ
timestamp at = at / 1_000_000

unfoldable pub from_timestamp : ℕ → ℕ
from_timestamp seconds = seconds * 1_000_000

module _ (crypto : Crypto) (manager : TokenManager) where
  -- `_issue`'s payload.
  unfoldable pub payload_of : ℕ → TokenType → ℕ → ℕ → ℕ → Payload
  payload_of user_id token_type ttl issued_at token_id = record {
    sub = user_id;
    jti = token_id;
    type_of = token_type;
    iss = manager.issuer;
    aud = manager.audience;
    iat = timestamp issued_at;
    nbf = timestamp issued_at;
    exp = timestamp (issued_at + ttl);
  }

  -- `_issue`, at a time of the clock and with the identifier that is drawn.
  unfoldable pub issue : ℕ → TokenType → ℕ → ℕ → ℕ → IssuedToken
  issue user_id token_type ttl issued_at token_id = record {
    value = crypto.encode (payload_of user_id token_type ttl issued_at token_id) manager.secret;
    token_id = token_id;
    expires_at = issued_at + ttl;
  }

  abbrev pub issue_access : ℕ → ℕ → ℕ → IssuedToken
  issue_access user_id = issue user_id TokenType.access manager.access_ttl

  abbrev pub issue_refresh : ℕ → ℕ → ℕ → IssuedToken
  issue_refresh user_id = issue user_id TokenType.refresh manager.refresh_ttl

  unfoldable pub claims_of : TokenType → Option Payload → Option TokenClaims
  unfolding same_type from_timestamp
  claims_of expected none = none
  claims_of expected (some p) =
      if same_type p.type_of expected
      then some record {
        subject = p.sub;
        token_id = p.jti;
        token_type = expected;
        expires_at = from_timestamp p.exp;
      }
      else none

  -- `_decode` at a time; `none` is `TokenValidationError`.
  unfoldable pub decode : Text → TokenType → ℕ → Option TokenClaims
  decode token expected now =
      claims_of expected (crypto.decode token manager.secret manager.issuer manager.audience now)

  abbrev pub decode_access : Text → ℕ → Option TokenClaims
  decode_access token = decode token TokenType.access

  abbrev pub decode_refresh : Text → ℕ → Option TokenClaims
  decode_refresh token = decode token TokenType.refresh

  abbrev pub hash_refresh_token : Text → Text
  hash_refresh_token = crypto.sha256_hex
