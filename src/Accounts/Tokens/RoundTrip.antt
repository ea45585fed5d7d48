-- ===== src/Accounts/Tokens/RoundTrip.antt =====
-- What is decoded of a token that was issued.
use reconcileflow_ai.Prelude.{ℕ, ◌+◌, ◌*◌, ◌≤◌, ◌<◌, ◌≡◌, refl, none, some, Text, arith, []}
use reconcileflow_ai.Accounts.Tokens.{
  TokenType, access, refresh, same_type, Payload, Crypto, TokenManager, timestamp, from_timestamp,
  payload_of, issue, claims_of, decode, issue_access, issue_refresh, decode_access, decode_refresh,
}

-- The documented behaviour of the library: a payload that was encoded with a secret is decoded with
-- it, for its issuer and its audience, none of them empty, from the times `iat` and `nbf` on and before the time `exp`, all
-- in seconds. A payload whose `iat` or `nbf` lies in the future is refused.
abbrev pub DecodesEncoded : Crypto → Type 0
DecodesEncoded crypto =
    (p : Payload) (secret : Text) (now : ℕ)
    → ¬ (secret ≡ [])
    → ¬ (p.iss ≡ [])
    → ¬ (p.aud ≡ [])
    → p.iat * 1_000_000 ≤ now
    → p.nbf * 1_000_000 ≤ now
    → now < p.exp * 1_000_000
    → crypto.decode (crypto.encode p secret) secret p.iss p.aud now ≡ some p

-- The settings name a secret, an issuer and an audience.
abbrev pub IsConfigured : TokenManager → Type 0
IsConfigured manager =
    (¬ (manager.secret ≡ [])) × (¬ (manager.issuer ≡ [])) × (¬ (manager.audience ≡ []))

module _ (crypto : Crypto) (manager : TokenManager) (law : DecodesEncoded crypto)
    (named : IsConfigured manager) where
  decode-issue :
      (user_id : ℕ) (issued expected : TokenType) (ttl issued_at token_id now : ℕ)
      → issued_at ≤ now
      → now < timestamp (issued_at + ttl) * 1_000_000
      → decode crypto manager
          (issue crypto manager user_id issued ttl issued_at token_id).value
          expected
          now
        ≡ claims_of crypto manager expected
            (some (payload_of crypto manager user_id issued ttl issued_at token_id))
  unfolding decode issue payload_of timestamp
  decode-issue user_id issued expected ttl issued_at token_id now h k =
      let p : Payload = payload_of crypto manager user_id issued ttl issued_at token_id in
      let drawn : p.iat * 1_000_000 ≤ now = omega (arith, h) in
      let started : p.nbf * 1_000_000 ≤ now = omega (arith, h) in
      rw (law p manager.secret now named.0 named.1 named.2 drawn started k) refl

  -- With a library that decodes what it has encoded once its times have come, and a secret, an issuer
  -- and an audience that are not empty: from the time of issue until the end of the last
  -- whole second of its lifetime an issued refresh token is decoded, as a refresh token, to its user,
  -- its identifier and that second, and is refused as an access token; an access token likewise.
  pub issued_decodes :
      (user_id issued_at token_id now : ℕ)
      → issued_at ≤ now
      → now < timestamp (issued_at + manager.refresh_ttl) * 1_000_000
      → now < timestamp (issued_at + manager.access_ttl) * 1_000_000
      → let refresh_token = (issue_refresh crypto manager user_id issued_at token_id).value in
        let access_token = (issue_access crypto manager user_id issued_at token_id).value in
        (decode_refresh crypto manager refresh_token now
          ≡ some record {
            subject = user_id;
            token_id = token_id;
            token_type = refresh;
            expires_at = timestamp (issued_at + manager.refresh_ttl) * 1_000_000;
          })
        × (decode_access crypto manager refresh_token now ≡ none)
        × (decode_access crypto manager access_token now
            ≡ some record {
              subject = user_id;
              token_id = token_id;
              token_type = access;
              expires_at = timestamp (issued_at + manager.access_ttl) * 1_000_000;
            })
        × (decode_refresh crypto manager access_token now ≡ none)
  unfolding claims_of payload_of same_type from_timestamp
  issued_decodes user_id issued_at token_id now h k l = (
    decode-issue user_id refresh refresh manager.refresh_ttl issued_at token_id now h k,
    decode-issue user_id refresh access manager.refresh_ttl issued_at token_id now h k,
    decode-issue user_id access access manager.access_ttl issued_at token_id now h l,
    decode-issue user_id access refresh manager.access_ttl issued_at token_id now h l,
  )
