-- ===== src/Quota/Transition.antt =====
-- Settling and releasing a reservation: `transition` of
-- apps/api/src/runtime/user-reservation.service.ts.
pub mod Written
pub mod Safety
pub mod Replay
use token_pilot.Base.{
  ℕ, ◌+◌, Bool, true, false, Option, none, some, ◌&&◌, ◌||◌, not, ◌==◌, if◌then◌else◌,
}
use token_pilot.Base.Int.{ℤ, pos, ◌+ℤ◌, ◌-ℤ◌, eqb_ℤ}
use token_pilot.Quota.Types.{
  Quota, Reservation, Status, reserved, settled, released, is_reserved, Entry, settlement_delta,
  reservation_release, reservation_settle, reservation_released,
}
use token_pilot.Quota.Store.{
  Tx, pure, throw, throw_if, ◌>>=◌, ◌>>◌, update_quota, update_reservations, create_entry,
  write_conflict, not_found, conflict, reservation_missing, token_mismatch, token_invalid,
  lineage_invalid, already_settled, already_closed,
}
use token_pilot.Quota.Claims.{
  Codec, Claims, Transition, transition_result, lineage_holds, quota_row, find_reservation,
}

pub data Action : Type 0 where
  settle release : Action

abbrev pub is_settle : Action → Bool
is_settle settle = true
is_settle release = false

-- The `where` and the `data` of the two `updateMany` calls.
abbrev pub open_row : ℕ → ℕ → ℕ → Reservation → Bool
open_row app id lock o =
    o.id == id && (o.application_id == app && (o.lock_version == lock && is_reserved o.status))

abbrev pub close_reservation : Action → ℤ → ℕ → Reservation → Reservation
close_reservation settle actual now o = record o {
  status = settled;
  settled = actual;
  settled_at = some now;
  lock_version = o.lock_version + 1;
}
close_reservation release actual now o = record o {
  status = released;
  released_at = some now;
  lock_version = o.lock_version + 1;
}

abbrev pub charged : Action → ℤ → ℤ
charged settle actual = actual
charged release actual = pos 0

abbrev pub close_quota : Action → ℤ → Reservation → Quota → Quota
close_quota action actual row q = record q {
  reserved = q.reserved -ℤ row.reserved;
  consumed = q.consumed +ℤ charged action actual;
  lock_version = q.lock_version + 1;
}

abbrev pub close_entry : Action → ℤ → Reservation → Quota → Entry
close_entry action actual row q = record {
  application_id = row.application_id;
  user_id = row.user_id;
  quota_id = row.quota_id;
  entry_type = if is_settle action then settlement_delta else reservation_release;
  consumed_delta = charged action actual;
  reserved_delta = pos 0 -ℤ row.reserved;
  consumed_after = q.consumed +ℤ charged action actual;
  reserved_after = q.reserved -ℤ row.reserved;
  limit_after = q.limit;
  source_event_id = none;
  source_reservation_id = some row.id;
  key = record {
    kind = if is_settle action then reservation_settle else reservation_released;
    subject = row.id;
    detail = 0;
    nonce = 0;
  };
}

-- The writes, from a row and a quota that were read before.
unfoldable pub close_row : Reservation → Quota → Action → ℤ → ℕ → Tx Transition
close_row row quota action actual now = do
  changed ←
      update_reservations (open_row row.application_id row.id row.lock_version)
        (close_reservation action actual now)
  throw_if (not (changed == 1)) write_conflict
  quota_changed ←
      update_quota row.application_id row.quota_id quota.lock_version
        (close_quota action actual row)
  throw_if (not (quota_changed == 1)) write_conflict
  create_entry (close_entry action actual row quota)
  pure (
      transition_result (close_reservation action actual now row)
        (close_quota action actual row quota))

-- The branches on the row's status.
unfoldable pub by_status : Status → Reservation → Quota → Action → ℤ → ℕ → Tx Transition
by_status settled row quota action actual now =
    if not (is_settle action) || not (eqb_ℤ row.settled actual)
    then throw (conflict already_settled)
    else pure (transition_result row quota)
by_status reserved row quota action actual now = close_row row quota action actual now
by_status _ row quota action actual now =
    if is_settle action then throw (conflict already_closed) else pure (transition_result row quota)

abbrev pub is_row : ℕ → ℕ → Reservation → Bool
is_row app id o = o.id == id && o.application_id == app

module _ (codec : Codec) (app : ℕ) where
  unfoldable pub transition_found : Option Reservation → Claims → ℕ → Action → ℤ → ℕ → Tx Transition
  transition_found none claims token action actual now = throw (not_found reservation_missing)
  transition_found (some row) claims token action actual now = do
    quota ← quota_row row.quota_id
    throw_if (not (lineage_holds codec row claims token)) (conflict lineage_invalid)
    by_status row.status row quota action actual now

  -- The body of the transaction, for claims that are verified.
  unfoldable pub transition_body : ℕ → Claims → ℕ → Action → ℤ → ℕ → Tx Transition
  unfolding transition_found
  transition_body id claims token action actual now = do
    row ← find_reservation (is_row app id)
    transition_found row claims token action actual now

  unfoldable pub transition : ℕ → ℕ → Action → ℤ → ℕ → Tx Transition
  transition id token action actual now = elim (codec.verify token) [
    | none ↦ throw (conflict token_invalid)
    | some claims ↦
        if not (claims.reservation_id == id) || not (claims.application_id == app)
        then throw (conflict token_mismatch)
        else transition_body id claims token action actual now
  ]
