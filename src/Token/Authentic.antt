-- ===== src/Token/Authentic.antt =====
-- Which tokens are verified.
use token_pilot.Base.{
  ℕ, ◌≡◌, ◌↔◌, refl, ap, ◌∙◌, Bool, true, false, Option, none, some, List, [], ◌∷◌, same_list,
  if◌then◌else◌, Bool-cases, inl, inr, arith,
}
use token_pilot.Token.{
  UserReservationClaims, Libraries, ApiConfiguration, token_prefix, split, Verified, verified,
  token_invalid, claims_schema, active_key_version, same_bytes, check_claims, check_signature,
  check_parts, verify,
}
use token_pilot.Token.Split.{same_list_self, same_list-eq}
use token_pilot.Token.RoundTrip.{same_bytes_self}

-- A token of three parts whose signature is the key's for the payload, and whose payload has claims
-- that keep the schema and name the active key.
pub record Authentic (libraries : Libraries) (configuration : ApiConfiguration) (token : List ℕ)
    (c : UserReservationClaims) : Type 0 where
  pub key : List ℕ
  pub payload : List ℕ
  pub signature : List ℕ
  pub configured : configuration.signing_key ≡ some key
  pub parts : split token ≡ token_prefix ∷ payload ∷ signature ∷ []
  pub signed : libraries.from_base64url signature ≡ libraries.hmac key payload
  pub read : libraries.parse_json (libraries.from_base64url payload) ≡ some c
  pub kept : claims_schema libraries c ≡ true
  pub active : c.key_version ≡ active_key_version libraries configuration

module _ (libraries : Libraries) (configuration : ApiConfiguration)
    (c : UserReservationClaims) where
  -- What an answer of `if` that is verified says of its test.
  if-verified :
      (test : Bool) (answer : Verified)
      → (if test then answer else token_invalid) ≡ verified c
      → (test ≡ true) × (answer ≡ verified c)
  if-verified true answer h = (refl, h)
  if-verified false answer h = cc

  claims-verified :
      (o : Option UserReservationClaims)
      → check_claims libraries configuration o ≡ verified c
      → (o ≡ some c)
        × (claims_schema libraries c ≡ true)
        × (c.key_version ≡ active_key_version libraries configuration)
  unfolding check_claims
  claims-verified none h = cc
  claims-verified (some parsed) h = elim (Bool-cases (claims_schema libraries parsed)) [
    | inr bad ↦ let h' : token_invalid ≡ verified c = rw bad at h in cc
    | inl good ↦
        elim (Bool-cases
          (same_list parsed.key_version (active_key_version libraries configuration))) [
            | inr old ↦ let h' : Verified.key_inactive ≡ verified c = rw (good, old) at h in cc
            | inl now ↦
                let h' : verified parsed ≡ verified c = rw (good, now) at h in
                let same : parsed ≡ c = cc in
                (ap some same, rw same at good, rw same at (same_list-eq parsed.key_version _ now))
          ]
  ]

  signature-verified :
      (payload signature : List ℕ) (o : Option (List ℕ))
      → check_signature libraries configuration o payload signature ≡ verified c
      → (key : List ℕ) × (o ≡ some key)
        × (libraries.from_base64url signature ≡ libraries.hmac key payload)
        × (libraries.parse_json (libraries.from_base64url payload) ≡ some c)
        × (claims_schema libraries c ≡ true)
        × (c.key_version ≡ active_key_version libraries configuration)
  unfolding check_signature
  signature-verified payload signature none h = cc
  signature-verified payload signature (some key) h =
      let supplied = libraries.from_base64url signature in
      let expected = libraries.hmac key payload in
      let (same, h') = if-verified (same_bytes libraries configuration supplied expected) _ h in
      let equal : same_list supplied expected ≡ true = ground arith in
      let (read, kept, active) = claims-verified _ h' in
      (key, refl, same_list-eq supplied expected equal, read, kept, active)

  parts-verified :
      (token : List ℕ) (parts : List (List ℕ))
      → split token ≡ parts
      → check_parts libraries configuration parts ≡ verified c
      → Authentic libraries configuration token c
  unfolding check_parts
  parts-verified token (prefix ∷ payload ∷ signature ∷ []) e h =
      let (same, h') = if-verified (same_list prefix token_prefix) _ h in
      let (key, configured, signed, read, kept, active) =
        signature-verified payload signature configuration.signing_key h' in
      record {
        key = key;
        payload = payload;
        signature = signature;
        configured = configured;
        parts = e ∙ ap (λ p. p ∷ payload ∷ signature ∷ []) (same_list-eq prefix token_prefix same);
        signed = signed;
        read = read;
        kept = kept;
        active = active;
      }
  parts-verified token [] e h = cc
  parts-verified token (a ∷ []) e h = cc
  parts-verified token (a ∷ b ∷ []) e h = cc
  parts-verified token (a ∷ b ∷ c' ∷ d ∷ rest) e h = cc

  Authentic-verified :
      (token : List ℕ)
      → Authentic libraries configuration token c
      → verify libraries configuration token ≡ verified c
  unfolding verify check_parts check_signature check_claims
  Authentic-verified token a = rw a.parts (
      rw a.configured (
        rw a.signed (
          rw (same_bytes_self libraries configuration (libraries.hmac a.key a.payload)) (
            rw a.read (
              rw a.kept (
                rw a.active
                  (rw (same_list_self (active_key_version libraries configuration)) refl)))))))

  -- A token is verified to claims exactly when a key is configured, the token has the prefix and two
  -- more parts and no others, its signature is the code of the payload by the key, and its payload is
  -- read to the claims, which keep the schema and name the active version of the key.
  pub verify-Authentic :
      (token : List ℕ)
      → (verify libraries configuration token ≡ verified c)
        ↔ Authentic libraries configuration token c
  unfolding verify
  verify-Authentic token =
      ((λ h. parts-verified token (split token) refl h), Authentic-verified token)
