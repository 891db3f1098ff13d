-- ===== src/Token.antt =====
-- The tokens of AIU reservations: apps/api/src/runtime/user-reservation-token.ts. A text is the list of
-- its code units.
pub mod Split
pub mod RoundTrip
pub mod Authentic
mod Tests
use token_pilot.Base.{
  ℕ, Bool, false, not, ◌&&◌, ◌||◌, Option, none, some, List, [], ◌∷◌, ◌++◌, length, all, leb, ◌==◌,
  same_list, if◌then◌else◌,
}

-- The claims without the version and the version of the key.
pub record ReservationClaims : Type 0 where
  pub reservation_id : List ℕ
  pub application_id : List ℕ
  pub user_id : List ℕ
  pub quota_id : List ℕ
  pub operation_id : List ℕ
  pub virtual_model : List ℕ
  pub candidate_model_ids : List (List ℕ)
  pub reserved_aiu_micros : List ℕ
  pub expires_at : List ℕ

pub record UserReservationClaims : Type 0 where
  pub version : List ℕ
  pub key_version : List ℕ
  pub claims : ReservationClaims

-- `user-aiu-reservation-1`
abbrev pub claims_version : List ℕ
claims_version =
    117 ∷ 115 ∷ 101 ∷ 114 ∷ 45 ∷ 97 ∷ 105 ∷ 117 ∷ 45 ∷ 114 ∷ 101 ∷ 115 ∷ 101 ∷ 114 ∷ 118 ∷ 97 ∷ 116
    ∷ 105 ∷ 111 ∷ 110 ∷ 45 ∷ 49 ∷ []

-- `tpur1`
abbrev pub token_prefix : List ℕ
token_prefix = 116 ∷ 112 ∷ 117 ∷ 114 ∷ 49 ∷ []

-- `current`
abbrev pub default_key_version : List ℕ
default_key_version = 99 ∷ 117 ∷ 114 ∷ 114 ∷ 101 ∷ 110 ∷ 116 ∷ []

abbrev pub dot : ℕ
dot = 46

-- The HMAC with SHA-256 of a text by a key, base64url, `JSON.stringify` of claims, `JSON.parse` of
-- bytes to what has the members of the claims, and the tests of identifiers and instants.
pub record Libraries : Type 0 where
  pub hmac : List ℕ → List ℕ → List ℕ
  pub utf8 : List ℕ → List ℕ
  pub to_base64url : List ℕ → List ℕ
  pub from_base64url : List ℕ → List ℕ
  pub stringify : UserReservationClaims → List ℕ
  pub parse_json : List ℕ → Option UserReservationClaims
  pub is_uuid : List ℕ → Bool
  pub is_datetime : List ℕ → Bool

pub record ApiConfiguration : Type 0 where
  pub signing_key : Option (List ℕ)
  pub key_version : Option (List ℕ)

abbrev pub is_digit : ℕ → Bool
is_digit unit = leb 48 unit && leb unit 57

-- `/^(?:0|[1-9][0-9]*)$/u`
unfoldable pub is_decimal : List ℕ → Bool
is_decimal [] = false
is_decimal (unit ∷ units) =
    (unit == 48 && length units == 0) || (is_digit unit && (not (unit == 48) && all is_digit units))

abbrev pub between : ℕ → ℕ → ℕ → Bool
between low high n = leb low n && leb n high

unfoldable pub claims_schema : Libraries → UserReservationClaims → Bool
claims_schema libraries signed =
    let c = signed.claims in
    same_list signed.version claims_version
    && (between 1 64 (length signed.key_version)
        && (libraries.is_uuid c.reservation_id
            && (libraries.is_uuid c.application_id
                && (libraries.is_uuid c.user_id
                    && (libraries.is_uuid c.quota_id
                        && (between 1 256 (length c.operation_id)
                            && (between 1 120 (length c.virtual_model)
                                && (all libraries.is_uuid c.candidate_model_ids
                                    && (between 1 32 (length c.candidate_model_ids)
                                        && (is_decimal c.reserved_aiu_micros
                                            && libraries.is_datetime c.expires_at))))))))))

abbrev pub first_part : ℕ → List (List ℕ) → List (List ℕ)
first_part unit [] = (unit ∷ []) ∷ []
first_part unit (part ∷ parts) = (unit ∷ part) ∷ parts

-- `split(".")`
unfoldable pub split : List ℕ → List (List ℕ)
split [] = [] ∷ []
split (unit ∷ units) =
    let parts = split units in if unit == dot then [] ∷ parts else first_part unit parts

pub data Verified : Type 0 where
  verified : UserReservationClaims → Verified
  token_invalid : Verified
  key_inactive : Verified
  not_configured : Verified

module _ (libraries : Libraries) (configuration : ApiConfiguration) where
  abbrev pub key_version_or : Option (List ℕ) → List ℕ
  key_version_or none = default_key_version
  key_version_or (some version) = version

  abbrev pub active_key_version : List ℕ
  active_key_version = key_version_or configuration.key_version

  abbrev pub signed_claims : ReservationClaims → UserReservationClaims
  signed_claims claims = record {
    version = claims_version;
    key_version = active_key_version;
    claims = claims;
  }

  abbrev pub payload_of : ReservationClaims → List ℕ
  payload_of claims =
      libraries.to_base64url (libraries.utf8 (libraries.stringify (signed_claims claims)))

  -- `none` where no key is configured.
  unfoldable pub sign_with : Option (List ℕ) → List ℕ → Option (List ℕ)
  sign_with none payload = none
  sign_with (some key) payload = some (
      token_prefix
      ++ (dot ∷ (payload ++ (dot ∷ libraries.to_base64url (libraries.hmac key payload)))))

  unfoldable pub sign : ReservationClaims → Option (List ℕ)
  sign claims = sign_with configuration.signing_key (payload_of claims)

  unfoldable pub check_claims : Option UserReservationClaims → Verified
  check_claims none = token_invalid
  check_claims (some parsed) =
      if not (claims_schema libraries parsed)
      then token_invalid
      else if same_list parsed.key_version active_key_version
      then verified parsed
      else key_inactive

  abbrev pub same_bytes : List ℕ → List ℕ → Bool
  same_bytes supplied expected = length supplied == length expected && same_list supplied expected

  unfoldable pub check_signature : Option (List ℕ) → List ℕ → List ℕ → Verified
  check_signature none payload signature = not_configured
  check_signature (some key) payload signature =
      if same_bytes (libraries.from_base64url signature) (libraries.hmac key payload)
      then check_claims (libraries.parse_json (libraries.from_base64url payload))
      else token_invalid

  unfoldable pub check_parts : List (List ℕ) → Verified
  check_parts (prefix ∷ payload ∷ signature ∷ []) =
      if same_list prefix token_prefix
      then check_signature configuration.signing_key payload signature
      else token_invalid
  check_parts _ = token_invalid

  unfoldable pub verify : List ℕ → Verified
  verify token = check_parts (split token)
