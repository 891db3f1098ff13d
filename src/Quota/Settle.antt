-- ===== src/Quota/Settle.antt =====
-- Charging a usage event to its user: `applyUserAiu` of
-- apps/worker/src/application-usage/user-aiu-settlement.ts.
pub mod Safety
use token_pilot.Base.{ℕ, ◌+◌, Bool, Option, none, some, ◌&&◌, ◌||◌, not, ◌==◌, if◌then◌else◌, find}
use token_pilot.Base.Int.{ℤ, pos, ◌+ℤ◌, ◌-ℤ◌, eqb_ℤ, ltb_ℤ}
use token_pilot.Quota.Types.{
  Quota, Reservation, Status, reserved, settled, is_reserved, is_settled, Entry, settlement_delta,
  consume, Key, same_key, usage_settle, usage_reconcile, usage_consume,
}
use token_pilot.Quota.Store.{
  Tx, ok, pure, throw, throw_if, ◌>>=◌, ◌>>◌, update_quota, update_reservations, create_entry,
  write_conflict, type_error, reservation_invalid, already_closed,
}
use token_pilot.Quota.Claims.{quota_row, find_reservation}

pub data Decision : Type 0 where
  allow observe warn : Decision

pub record Consumption : Type 0 where
  pub consumed : ℤ
  pub decision : Decision

-- `actual ?? 0n`
abbrev pub or_zero : Option ℤ → ℤ
or_zero none = pos 0
or_zero (some z) = z

abbrev pub settled_row : ℕ → ℕ → ℕ → Reservation → Bool
settled_row app id lock o =
    o.application_id == app && (o.id == id && (is_settled o.status && o.lock_version == lock))

abbrev pub reserved_row : ℕ → ℕ → ℕ → Reservation → Bool
reserved_row app id lock o =
    o.application_id == app && (o.id == id && (is_reserved o.status && o.lock_version == lock))

abbrev pub resettle : ℤ → Reservation → Reservation
resettle amount o = record o { settled = amount; lock_version = o.lock_version + 1 }

abbrev pub settle_reservation : ℤ → ℕ → Reservation → Reservation
settle_reservation amount now o = record o {
  status = settled;
  settled = amount;
  settled_at = some now;
  lock_version = o.lock_version + 1;
}

abbrev pub charge_quota : ℤ → ℤ → Quota → Quota
charge_quota spend free q = record q {
  reserved = q.reserved -ℤ free;
  consumed = q.consumed +ℤ spend;
  lock_version = q.lock_version + 1;
}

abbrev pub settlement_entry : ℤ → ℤ → Key → ℕ → Reservation → Quota → Entry
settlement_entry spend free key event row q = record {
  application_id = row.application_id;
  user_id = row.user_id;
  quota_id = row.quota_id;
  entry_type = settlement_delta;
  consumed_delta = spend;
  reserved_delta = pos 0 -ℤ free;
  consumed_after = q.consumed +ℤ spend;
  reserved_after = q.reserved -ℤ free;
  limit_after = q.limit;
  source_event_id = some event;
  source_reservation_id = some row.id;
  key = key;
}

abbrev pub reconcile_key : ℕ → Key
reconcile_key event = record { kind = usage_reconcile; subject = event; detail = 0; nonce = 0 }

abbrev pub settle_key : ℕ → Key
settle_key event = record { kind = usage_settle; subject = event; detail = 0; nonce = 0 }

-- The writes for a reservation that was settled before, with the difference to the rated amount.
unfoldable pub reconcile_row : Reservation → Quota → ℕ → ℤ → Tx (Option Consumption)
reconcile_row row q event amount = do
  changed ←
      update_reservations (settled_row row.application_id row.id row.lock_version) (resettle amount)
  quota_changed ←
      update_quota row.application_id row.quota_id q.lock_version
        (charge_quota (amount -ℤ row.settled) (pos 0))
  throw_if (not (changed == 1) || not (quota_changed == 1)) write_conflict
  create_entry (settlement_entry (amount -ℤ row.settled) (pos 0) (reconcile_key event) event row q)
  pure (some (record { consumed = amount; decision = allow }))

-- The writes for an open reservation.
unfoldable pub settle_row : Reservation → Quota → ℕ → ℤ → ℕ → Tx (Option Consumption)
settle_row row q event amount now = do
  changed ←
      update_reservations (reserved_row row.application_id row.id row.lock_version)
        (settle_reservation amount now)
  quota_changed ←
      update_quota row.application_id row.quota_id q.lock_version (charge_quota amount row.reserved)
  throw_if (not (changed == 1) || not (quota_changed == 1)) write_conflict
  create_entry (settlement_entry amount row.reserved (settle_key event) event row q)
  pure (some (record { consumed = amount; decision = allow }))

unfoldable pub settle_by_status : Status → Reservation → Quota → ℕ → ℤ → ℕ → Tx (Option Consumption)
settle_by_status settled row q event amount now =
    if eqb_ℤ row.settled amount
    then pure (some (record { consumed = row.settled; decision = allow }))
    else reconcile_row row q event amount
settle_by_status reserved row q event amount now = settle_row row q event amount now
settle_by_status _ row q event amount now = throw (type_error already_closed)

abbrev pub is_row_of : ℕ → ℕ → ℕ → Reservation → Bool
is_row_of app id user o = o.application_id == app && (o.id == id && o.user_id == user)

unfoldable pub settle_found : Option Reservation → ℕ → ℤ → ℕ → Tx (Option Consumption)
settle_found none event amount now = throw (type_error reservation_invalid)
settle_found (some row) event amount now = do
  q ← quota_row row.quota_id
  settle_by_status row.status row q event amount now

-- `userAiuQuota.findUnique` on the application and the user.
unfoldable pub find_quota : ℕ → ℕ → Tx (Option Quota)
find_quota app user s = elim (s.quota_of user) [
  | none ↦ ok (none, s)
  | some k ↦ elim (s.quotas k) [
    | none ↦ ok (none, s)
    | some q ↦ ok (if q.application_id == app then some q else none, s)
  ]
]

unfoldable pub find_entry : ℕ → Key → Tx (Option Entry)
find_entry app key s = ok (find (λ e. e.application_id == app && same_key e.key key) s.ledger, s)

abbrev pub consume_key : ℕ → Key
consume_key event = record { kind = usage_consume; subject = event; detail = 0; nonce = 0 }

abbrev pub consume_entry : ℤ → ℕ → ℕ → ℕ → Quota → Entry
consume_entry amount app user event q = record {
  application_id = app;
  user_id = user;
  quota_id = q.id;
  entry_type = consume;
  consumed_delta = amount;
  reserved_delta = pos 0;
  consumed_after = q.consumed +ℤ amount;
  reserved_after = q.reserved;
  limit_after = q.limit;
  source_event_id = some event;
  source_reservation_id = none;
  key = consume_key event;
}

abbrev pub consume_quota : ℤ → Quota → Quota
consume_quota amount q = record q {
  consumed = q.consumed +ℤ amount;
  lock_version = q.lock_version + 1;
}

abbrev pub over_limit : Quota → ℤ → Bool
over_limit q consumed_after = ltb_ℤ q.limit consumed_after

unfoldable pub consume_new : ℕ → ℕ → ℕ → ℤ → Quota → Tx (Option Consumption)
consume_new app user event amount q = do
  changed ← update_quota app q.id q.lock_version (consume_quota amount)
  throw_if (not (changed == 1)) write_conflict
  create_entry (consume_entry amount app user event q)
  pure (
      some (record {
        consumed = amount;
        decision =
            if not q.hard_limit && over_limit q (q.consumed +ℤ amount) then warn else observe;
      }))

unfoldable pub consume_once : Option Entry → ℕ → ℕ → ℕ → ℤ → Quota → Tx (Option Consumption)
consume_once (some e) app user event amount q = pure (
    some (record {
      consumed = e.consumed_delta;
      decision =
          if q.hard_limit then allow else if over_limit q e.consumed_after then warn else observe;
    }))
consume_once none app user event amount q = consume_new app user event amount q

unfoldable pub consume_from : Option Quota → ℕ → ℕ → ℕ → ℤ → Tx (Option Consumption)
consume_from none app user event amount = pure none
consume_from (some q) app user event amount = if not q.enabled then pure none else do
  existing ← find_entry app (consume_key event)
  consume_once existing app user event amount q

unfoldable pub consume_direct : ℕ → ℕ → ℕ → Option ℤ → Tx (Option Consumption)
consume_direct app user event none = pure none
consume_direct app user event (some amount) = do
  q ← find_quota app user
  consume_from q app user event amount

unfoldable pub apply_user_aiu : ℕ → ℕ → Option ℕ → ℕ → Option ℤ → ℕ → Tx (Option Consumption)
apply_user_aiu app user none event actual now = consume_direct app user event actual
apply_user_aiu app user (some id) event actual now = do
  row ← find_reservation (is_row_of app id user)
  settle_found row event (or_zero actual) now
