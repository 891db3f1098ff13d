-- ===== src/Quota/Rollover.antt =====
-- Renewing a quota whose period is over: `rolloverReservationQuota` of
-- apps/api/src/runtime/user-reservation-domain.ts.
pub mod Safety
use token_pilot.Base.{
  ℕ, ◌+◌, Bool, true, false, Option, none, some, ◌&&◌, not, ◌==◌, ltb, if◌then◌else◌,
}
use token_pilot.Base.Int.{pos, ◌-ℤ◌}
use token_pilot.Quota.Types.{
  Quota, Reservation, PeriodType, expired, is_reserved, Entry, expire, quota_period,
}
use token_pilot.Quota.Store.{
  Tx, pure, throw_if, ◌>>=◌, ◌>>◌, update_quota, update_reservations, create_entry, write_conflict,
  conflict, lifetime_expired,
}
use token_pilot.Quota.Materialize.{Window, period_window}

-- `rolloverReservationQuota`
abbrev pub renewed : Window → Quota → Quota
renewed w q = record q {
  consumed = pos 0;
  reserved = pos 0;
  period_start = w.start;
  period_end = w.end;
  lock_version = q.lock_version + 1;
}

abbrev pub quotas_open_row : ℕ → ℕ → Reservation → Bool
quotas_open_row app id o = o.application_id == app && (o.quota_id == id && is_reserved o.status)

abbrev pub expire_reservation : ℕ → Reservation → Reservation
expire_reservation now o = record o {
  status = expired;
  released_at = some now;
  lock_version = o.lock_version + 1;
}

abbrev pub renewal_entry : ℕ → ℕ → ℕ → Quota → Entry
renewal_entry app user end q = record {
  application_id = app;
  user_id = user;
  quota_id = q.id;
  entry_type = expire;
  consumed_delta = pos 0 -ℤ q.consumed;
  reserved_delta = pos 0 -ℤ q.reserved;
  consumed_after = pos 0;
  reserved_after = pos 0;
  limit_after = q.limit;
  source_event_id = none;
  source_reservation_id = none;
  key = record { kind = quota_period; subject = q.id; detail = end; nonce = 0 };
}

unfoldable pub renew : Window → Quota → ℕ → ℕ → ℕ → ℕ → Tx Quota
renew w q user app end now = do
  changed ← update_quota app q.id q.lock_version (renewed w)
  throw_if (not (changed == 1)) write_conflict
  closed ← update_reservations (quotas_open_row app q.id) (expire_reservation now)
  create_entry (renewal_entry app user end q)
  pure (renewed w q)

abbrev pub has_end : Window → Bool
has_end w = elim w.end [ none ↦ false | some _ ↦ true ]

unfoldable pub rollover_from : (PeriodType → ℕ → ℕ × ℕ) → Option ℕ → Quota → ℕ → ℕ → ℕ → Tx Quota
rollover_from calendar none q user app now = pure q
rollover_from calendar (some end) q user app now = if ltb now end then pure q else do
  w ← period_window calendar q.period_type now none
  throw_if (not (has_end w)) (conflict lifetime_expired)
  renew w q user app end now

unfoldable pub rollover : (PeriodType → ℕ → ℕ × ℕ) → Quota → ℕ → ℕ → ℕ → Tx Quota
rollover calendar q user app now = rollover_from calendar q.period_end q user app now
