-- ===== src/Token/Tests.antt =====
-- A key, and the token of one reservation.
use token_pilot.Base.{
  ℕ, ◌+◌, ◌-◌, ◌≡◌, ◌↔◌, refl, ap, true, false, Option, none, some, List, [], ◌∷◌, ◌++◌, map,
  includes, arith, same_list, if◌then◌else◌,
}
use token_pilot.Token.{
  ReservationClaims, UserReservationClaims, Libraries, ApiConfiguration, verified, dot,
  token_prefix, split, token_invalid, claims_version, default_key_version, is_decimal,
  claims_schema, signed_claims, sign_with, sign, check_signature, check_parts, verify,
}
use token_pilot.Token.RoundTrip.{verify-sign}
use token_pilot.Token.Authentic.{Authentic, verify-Authentic}

abbrev claims : ReservationClaims
claims = record {
  reservation_id = 1 ∷ [];
  application_id = 2 ∷ [];
  user_id = 3 ∷ [];
  quota_id = 4 ∷ [];
  operation_id = 111 ∷ 112 ∷ [];
  virtual_model = 109 ∷ [];
  candidate_model_ids = (5 ∷ []) ∷ [];
  reserved_aiu_micros = 49 ∷ 48 ∷ [];
  expires_at = 6 ∷ [];
}

abbrev signed : UserReservationClaims
signed = record { version = claims_version; key_version = default_key_version; claims = claims }

-- Bytes are written as code units above 100, and one text is read as the claims.
abbrev read_one : List ℕ → Option UserReservationClaims
read_one text = if same_list text (49 ∷ 48 ∷ []) then some signed else none

abbrev libraries : Libraries
libraries = record {
  hmac = λ key text. key ++ text;
  utf8 = λ text. text;
  to_base64url = λ bytes. map (λ n. n + 100) bytes;
  from_base64url = λ text. map (λ n. n - 100) text;
  stringify = λ c. c.claims.reserved_aiu_micros;
  parse_json = read_one;
  is_uuid = λ text. true;
  is_datetime = λ text. true;
}

abbrev configuration : ApiConfiguration
configuration = record { signing_key = some (7 ∷ 8 ∷ []); key_version = none }

from-to : (bytes : List ℕ) → libraries.from_base64url (libraries.to_base64url bytes) ≡ bytes
from-to [] = refl
from-to (n ∷ ns) =
    let back : (n + 100) - 100 ≡ n = omega arith in rw back (ap (λ rest. n ∷ rest) (from-to ns))

no_dot : (bytes : List ℕ) → includes dot (libraries.to_base64url bytes) ≡ false
no_dot [] = refl
no_dot (n ∷ ns) = ground (arith, no_dot ns)

verify-sign_example :
    (token : List ℕ) × (sign libraries configuration claims ≡ some token)
    × (verify libraries configuration token
        ≡ verified (signed_claims libraries configuration claims))
unfolding claims_schema is_decimal
verify-sign_example =
    verify-sign libraries configuration from-to no_dot (7 ∷ 8 ∷ []) claims refl refl refl

-- `tpur1.`, the payload, `.` and the signature: one that is verified, and one with another signature.
abbrev token : List ℕ
token = token_prefix ++ (46 ∷ 149 ∷ 148 ∷ 46 ∷ 107 ∷ 108 ∷ 249 ∷ 248 ∷ [])

token-signed : sign libraries configuration claims ≡ some token
unfolding sign sign_with
token-signed = refl

forged-invalid :
    verify libraries configuration
      (token_prefix ++ (46 ∷ 149 ∷ 148 ∷ 46 ∷ 107 ∷ 108 ∷ 249 ∷ 249 ∷ []))
    ≡ token_invalid
unfolding verify split check_parts check_signature
forged-invalid = refl

verify-Authentic_example :
    (verify libraries configuration token ≡ verified signed)
    ↔ Authentic libraries configuration token signed
verify-Authentic_example = verify-Authentic libraries configuration signed token
