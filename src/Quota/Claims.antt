-- ===== src/Quota/Claims.antt =====
-- The claims of a reservation token and the summaries that a caller gets
-- (apps/api/src/runtime/user-reservation-domain.ts). Signing, hashing and verifying a token are
-- parameters.
use token_pilot.Base.{
  ℕ, Bool, Option, none, some, List, ◌&&◌, ◌==◌, ltb, if◌then◌else◌, same_list, find,
}
use token_pilot.Base.Int.{ℤ, pos, ◌-ℤ◌, ltb_ℤ, eqb_ℤ}
use token_pilot.Base.Sort.{sort_by}
use token_pilot.Quota.Types.{Quota, Reservation, Status}
use token_pilot.Quota.Store.{Tx, ok, err, relation_missing}

pub record Claims : Type 0 where
  pub reservation_id : ℕ
  pub application_id : ℕ
  pub user_id : ℕ
  pub quota_id : ℕ
  pub operation_id : ℕ
  pub virtual_model : ℕ
  pub candidate_model_ids : List ℕ
  pub reserved : ℤ
  pub expires_at : ℕ

-- `UserReservationTokenCodec`: its texts are numbers, and `verify` is `none` where it throws.
pub record Codec : Type 0 where
  pub sign : Claims → ℕ
  pub hash : ℕ → ℕ
  pub verify : ℕ → Option Claims

abbrev pub sort_ids : List ℕ → List ℕ
sort_ids = sort_by ltb

unfoldable pub reservation_claims : Reservation → Claims
reservation_claims row = record {
  reservation_id = row.id;
  application_id = row.application_id;
  user_id = row.user_id;
  quota_id = row.quota_id;
  operation_id = row.operation_id;
  virtual_model = row.virtual_model;
  candidate_model_ids = sort_ids row.candidate_model_ids;
  reserved = row.reserved;
  expires_at = row.expires_at;
}

-- `JSON.stringify(a) === JSON.stringify(b)`, field by field.
unfoldable pub same_claims : Claims → Claims → Bool
same_claims a b =
    a.reservation_id == b.reservation_id
    && (a.application_id == b.application_id
        && (a.user_id == b.user_id
            && (a.quota_id == b.quota_id
                && (a.operation_id == b.operation_id
                    && (a.virtual_model == b.virtual_model
                        && (same_list a.candidate_model_ids b.candidate_model_ids
                            && (eqb_ℤ a.reserved b.reserved && a.expires_at == b.expires_at)))))))

-- The negation of the test in `assertReservationTokenLineage`.
unfoldable pub lineage_holds : Codec → Reservation → Claims → ℕ → Bool
lineage_holds codec row claims token =
    codec.hash token == row.token_hash && same_claims claims (reservation_claims row)

unfoldable pub remaining_aiu : Quota → ℤ
remaining_aiu q =
    let value = q.limit -ℤ q.consumed -ℤ q.reserved in if ltb_ℤ (pos 0) value then value else pos 0

pub record Summary : Type 0 where
  pub user_id : ℕ
  pub limit : Option ℤ
  pub used : ℤ
  pub reserved : ℤ
  pub remaining : Option ℤ

unfoldable pub user_summary : ℕ → Option Quota → Summary
user_summary user none = record {
  user_id = user;
  limit = none;
  used = pos 0;
  reserved = pos 0;
  remaining = none;
}
user_summary user (some q) = record {
  user_id = user;
  limit = some q.limit;
  used = q.consumed;
  reserved = q.reserved;
  remaining = some (remaining_aiu q);
}

pub record Transition : Type 0 where
  pub reservation_id : ℕ
  pub status : Status
  pub settled : ℤ
  pub user : Summary

unfoldable pub transition_result : Reservation → Quota → Transition
transition_result row quota = record {
  reservation_id = row.id;
  status = row.status;
  settled = row.settled;
  user = user_summary row.user_id (some quota);
}

-- `include: { quota: true }`
unfoldable pub quota_row : ℕ → Tx Quota
quota_row k s = elim (s.quotas k) [ none ↦ err relation_missing | some q ↦ ok (q, s) ]

-- `userAiuReservation.findFirst`
unfoldable pub find_reservation : (Reservation → Bool) → Tx (Option Reservation)
find_reservation p s = ok (find p s.reservations, s)

-- The unique index of the reservations.
abbrev pub is_operation : ℕ → ℕ → ℕ → Reservation → Bool
is_operation app user operation o =
    o.application_id == app && (o.user_id == user && o.operation_id == operation)
