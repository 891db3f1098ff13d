-- ===== src/Token/RoundTrip.antt =====
-- A signed token is verified to its claims.
use token_pilot.Base.{
  ℕ, ◌≡◌, refl, ap, ◌∙◌, true, false, some, List, [], ◌∷◌, ◌++◌, length, includes, ==-self,
}
use token_pilot.Token.{
  ReservationClaims, Libraries, ApiConfiguration, token_prefix, dot, split, verified, claims_schema,
  signed_claims, payload_of, active_key_version, sign_with, sign, same_bytes, check_claims,
  check_signature, check_parts, verify,
}
use token_pilot.Token.Split.{split-dot, split-whole, same_list_self}

pub same_bytes_self :
    (libraries : Libraries) (configuration : ApiConfiguration) (a : List ℕ)
    → same_bytes libraries configuration a a ≡ true
same_bytes_self libraries configuration a = rw (==-self (length a)) (same_list_self a)

-- base64url reads back what it has written, without a dot.
module _ (libraries : Libraries) (configuration : ApiConfiguration)
    (from_base64url-to : (bytes : List ℕ)
      → libraries.from_base64url (libraries.to_base64url bytes) ≡ bytes)
    (no_dot : (bytes : List ℕ) → includes dot (libraries.to_base64url bytes) ≡ false) where
  split-token :
      (payload signature : List ℕ)
      → includes dot payload ≡ false
      → includes dot signature ≡ false
      → split (token_prefix ++ (dot ∷ (payload ++ (dot ∷ signature))))
        ≡ token_prefix ∷ payload ∷ signature ∷ []
  split-token payload signature h h' =
      split-dot token_prefix (payload ++ (dot ∷ signature)) refl
      ∙ ap (λ parts. token_prefix ∷ parts)
          (split-dot payload signature h ∙ ap (λ parts. payload ∷ parts) (split-whole signature h'))

  check_claims-signed :
      (claims : ReservationClaims)
      → claims_schema libraries (signed_claims libraries configuration claims) ≡ true
      → check_claims libraries configuration (some (signed_claims libraries configuration claims))
        ≡ verified (signed_claims libraries configuration claims)
  unfolding check_claims
  check_claims-signed claims ok =
      rw ok (rw (same_list_self (active_key_version libraries configuration)) refl)

  signature_passes :
      (key : List ℕ) (claims : ReservationClaims)
      → libraries.parse_json
          (libraries.utf8 (libraries.stringify (signed_claims libraries configuration claims)))
        ≡ some (signed_claims libraries configuration claims)
      → claims_schema libraries (signed_claims libraries configuration claims) ≡ true
      → check_signature libraries configuration
          (some key)
          (payload_of libraries configuration claims)
          (libraries.to_base64url (libraries.hmac key (payload_of libraries configuration claims)))
        ≡ verified (signed_claims libraries configuration claims)
  unfolding check_signature
  signature_passes key claims reads ok =
      let mac = libraries.hmac key (payload_of libraries configuration claims) in
      let bytes =
        libraries.utf8 (libraries.stringify (signed_claims libraries configuration claims)) in
      rw (from_base64url-to mac) (
        rw (same_bytes_self libraries configuration mac)
          (rw (from_base64url-to bytes) (rw reads (check_claims-signed claims ok))))

  -- Where a key is configured, claims that keep the schema are signed to a token, and the token is
  -- verified to the same claims, with the version and the version of the active key. base64url
  -- reads back what it has written, without a dot, and so does JSON with these claims.
  pub verify-sign :
      (key : List ℕ) (claims : ReservationClaims)
      → configuration.signing_key ≡ some key
      → libraries.parse_json
          (libraries.utf8 (libraries.stringify (signed_claims libraries configuration claims)))
        ≡ some (signed_claims libraries configuration claims)
      → claims_schema libraries (signed_claims libraries configuration claims) ≡ true
      → (token : List ℕ) × (sign libraries configuration claims ≡ some token)
        × (verify libraries configuration token
            ≡ verified (signed_claims libraries configuration claims))
  unfolding sign sign_with verify check_parts
  verify-sign key claims keyed reads ok =
      let payload = payload_of libraries configuration claims in
      let signature = libraries.to_base64url (libraries.hmac key payload) in
      (
        token_prefix ++ (dot ∷ (payload ++ (dot ∷ signature))),
        ap (λ o. sign_with libraries configuration o payload) keyed,
        ap (check_parts libraries configuration)
              (split-token payload signature (no_dot _) (no_dot (libraries.hmac key payload)))
            ∙ (ap (λ o. check_signature libraries configuration o payload signature) keyed
                ∙ signature_passes key claims reads ok),
      )
