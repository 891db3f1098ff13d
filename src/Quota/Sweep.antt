-- ===== src/Quota/Sweep.antt =====
-- Expiring reservations that were never settled:
-- apps/worker/src/maintenance/user-aiu-reservation-sweeper.ts.
pub mod Safety
use token_pilot.Base.{
  ℕ, ◌+◌, Bool, true, false, Option, none, some, List, [], ◌∷◌, ◌&&◌, ◌||◌, not, ◌==◌, ltb, leb,
  if◌then◌else◌, keep, take, map,
}
use token_pilot.Base.Int.{ℤ, pos, ◌-ℤ◌, ltb_ℤ}
use token_pilot.Base.Sort.{sort_by}
use token_pilot.Quota.Types.{
  Store, Quota, Reservation, expired, is_reserved, Entry, expire, reservation_expire,
}
use token_pilot.Quota.Store.{
  Tx, Result, ok, err, pure, throw_if, ◌>>=◌, ◌>>◌, update_quota, update_reservations, create_entry,
  write_conflict, type_error, balance_inconsistent,
}
use token_pilot.Quota.Claims.{quota_row, find_reservation}

abbrev pub is_due : ℕ → Reservation → Bool
is_due now o = is_reserved o.status && leb o.expires_at now

abbrev pub due_row : ℕ → ℕ → ℕ → Reservation → Bool
due_row app id now o = o.id == id && (o.application_id == app && is_due now o)

abbrev pub lapsing_row : ℕ → ℕ → ℕ → Reservation → Bool
lapsing_row app id lock o =
    o.id == id && (o.application_id == app && (is_reserved o.status && o.lock_version == lock))

abbrev pub lapse_reservation : ℕ → Reservation → Reservation
lapse_reservation now o = record o {
  status = expired;
  released_at = some now;
  lock_version = o.lock_version + 1;
}

abbrev pub lapse_quota : Reservation → Quota → Quota
lapse_quota row q = record q {
  reserved = q.reserved -ℤ row.reserved;
  lock_version = q.lock_version + 1;
}

abbrev pub lapse_entry : Reservation → Quota → Entry
lapse_entry row q = record {
  application_id = row.application_id;
  user_id = row.user_id;
  quota_id = row.quota_id;
  entry_type = expire;
  consumed_delta = pos 0;
  reserved_delta = pos 0 -ℤ row.reserved;
  consumed_after = q.consumed;
  reserved_after = q.reserved -ℤ row.reserved;
  limit_after = q.limit;
  source_event_id = none;
  source_reservation_id = some row.id;
  key = record { kind = reservation_expire; subject = row.id; detail = 0; nonce = 0 };
}

unfoldable pub lapse_row : Reservation → Quota → ℕ → Tx Bool
lapse_row row q now = do
  throw_if (ltb_ℤ (q.reserved -ℤ row.reserved) (pos 0)) (type_error balance_inconsistent)
  changed ←
      update_reservations (lapsing_row row.application_id row.id row.lock_version)
        (lapse_reservation now)
  quota_changed ← update_quota row.application_id row.quota_id q.lock_version (lapse_quota row)
  throw_if (not (changed == 1) || not (quota_changed == 1)) write_conflict
  create_entry (lapse_entry row q)
  pure true

unfoldable pub expire_found : Option Reservation → ℕ → Tx Bool
expire_found none now = pure false
expire_found (some row) now = do q ← quota_row row.quota_id; lapse_row row q now

-- The transaction of `expire`.
unfoldable pub expire_one : ℕ → ℕ → ℕ → Tx Bool
expire_one app id now = do row ← find_reservation (due_row app id now); expire_found row now

-- `orderBy: [{ expiresAt: "asc" }, { id: "asc" }]`
abbrev pub lapses_before : Reservation → Reservation → Bool
lapses_before a b = ltb a.expires_at b.expires_at || (a.expires_at == b.expires_at && ltb a.id b.id)

unfoldable pub due : ℕ → ℕ → List Reservation → List Reservation
due limit now rows = take limit (sort_by lapses_before (keep (is_due now) rows))

-- The loop: each row in a transaction of its own, so that what was committed stays when a later
-- one throws. The result is the number of swept rows.
unfoldable pub sweep_rows : List Reservation → ℕ → ℕ → Store → Result ℕ × Store
sweep_rows [] swept now s = (ok swept, s)
sweep_rows (row ∷ rows) swept now s = elim (expire_one row.application_id row.id now s) [
  | err e ↦ (err e, s)
  | ok (lapsed, s') ↦ sweep_rows rows (if lapsed then swept + 1 else swept) now s'
]

unfoldable pub sweep : ℕ → ℕ → Store → Result ℕ × Store
sweep limit now s = sweep_rows (due limit now s.reservations) 0 now s
