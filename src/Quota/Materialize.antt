-- ===== src/Quota/Materialize.antt =====
-- How the rule that applies to a user becomes the user's quota: `materializeEffectiveAiuQuotaPolicy`
-- of packages/db/src/aiu-quota-policies.ts. The calendar of a time zone is a parameter.
pub mod Writes
pub mod Opened
pub mod Safety
use token_pilot.Base.{
  same_bool, ℕ, ◌+◌, Bool, true, false, Option, none, some, List, ◌&&◌, ◌||◌, not, ◌==◌, leb,
  if◌then◌else◌, same_option,
}
use token_pilot.Base.Int.{ℤ, pos, ◌-ℤ◌, ltb_ℤ, eqb_ℤ}
use token_pilot.Quota.Types.{
  Quota, Reservation, PeriodType, lifetime, fixed_window, same_period, released, is_reserved, Entry,
  grant, Key, policy_change, policy_none,
}
use token_pilot.Quota.Store.{
  Tx, ok, err, pure, throw, ◌>>=◌, ◌>>◌, update_reservations, create_entry, put_quota, counters_ok,
  check_violation, unique_violation, relation_missing, type_error, fixed_window_invalid,
}
use token_pilot.Quota.Settle.{find_quota}
use token_pilot.Quota.Policy.{Policy, resolve_policy}

pub record Window : Type 0 where
  pub start : ℕ
  pub end : Option ℕ

-- `aiuQuotaPeriodWindow`. The window of a calendar period is a parameter, since it is computed from
-- the time zone database.
unfoldable pub period_window :
    (PeriodType → ℕ → ℕ × ℕ) → PeriodType → ℕ → Option (ℕ × ℕ) → Tx Window
period_window calendar PeriodType.lifetime now fixed = pure (record { start = now; end = none })
period_window calendar PeriodType.fixed_window now none = throw (type_error fixed_window_invalid)
period_window calendar PeriodType.fixed_window now (some (start, end)) =
    if leb end start
    then throw (type_error fixed_window_invalid)
    else pure (record { start = start; end = some end })
period_window calendar type now fixed =
    let (start, end) = calendar type now in pure (record { start = start; end = some end })

-- The `window` that the reservation service passes: the dates of a fixed window, which are set.
unfoldable pub policy_window : (PeriodType → ℕ → ℕ × ℕ) → Policy → ℕ → Tx Window
policy_window calendar p now =
    if same_period p.period_type fixed_window
    then elim p.starts_at [
      | none ↦ throw relation_missing
      | some start ↦ pure (record { start = start; end = p.ends_at })
    ]
    else period_window calendar p.period_type now none

-- `userAiuQuota.update({ where: { id } })`
unfoldable pub set_quota : ℕ → Quota → Tx (Unit {0})
set_quota k q s = if counters_ok q then ok (tt, put_quota k q s) else err check_violation

-- `userAiuQuota.create`, with the primary key and the unique index on the user.
unfoldable pub create_quota : Quota → Tx (Unit {0})
create_quota q s = elim (s.quotas q.id) [
  | some _ ↦ err unique_violation
  | none ↦ elim (s.quota_of q.user_id) [
    | some _ ↦ err unique_violation
    | none ↦
        if counters_ok q
        then ok (
          tt,
          record (put_quota q.id q s) {
            quota_of = λ u. if u == q.user_id then some q.id else s.quota_of u;
          },
        )
        else err check_violation
  ]
]

abbrev pub grant_entry : Key → ℤ → ℤ → Quota → Entry
grant_entry key consumed_delta reserved_delta q = record {
  application_id = q.application_id;
  user_id = q.user_id;
  quota_id = q.id;
  entry_type = grant;
  consumed_delta = consumed_delta;
  reserved_delta = reserved_delta;
  consumed_after = q.consumed;
  reserved_after = q.reserved;
  limit_after = q.limit;
  source_event_id = none;
  source_reservation_id = none;
  key = key;
}

-- No rule applies any more.
abbrev pub withdrawn : Quota → Quota
withdrawn q = record q { policy_id = none; enabled = false; lock_version = q.lock_version + 1 }

-- The quota of a user who had none.
abbrev pub granted : ℕ → ℕ → ℕ → Policy → Window → Quota
granted id app user_id p w = record {
  id = id;
  application_id = app;
  user_id = user_id;
  policy_id = some p.id;
  period_type = p.period_type;
  period_start = w.start;
  period_end = w.end;
  limit = p.limit;
  consumed = pos 0;
  reserved = pos 0;
  hard_limit = p.hard_limit;
  enabled = true;
  lock_version = 0;
}

unfoldable pub period_changed : Policy → Window → Quota → Bool
period_changed p w q =
    not (same_period q.period_type p.period_type)
    || (not (same_period p.period_type lifetime)
        && (not (q.period_start == w.start) || not (same_option q.period_end w.end)))

unfoldable pub unchanged : Policy → Window → Quota → Bool
unchanged p w q =
    same_option q.policy_id (some p.id)
    && (eqb_ℤ q.limit p.limit
        && (same_bool q.hard_limit p.hard_limit && (q.enabled && not (period_changed p w q))))

-- The row after the update; a changed period starts with empty counters.
abbrev pub regranted : Policy → Window → Quota → Quota
regranted p w q =
    let changed = period_changed p w q in
    record q {
      policy_id = some p.id;
      period_type = p.period_type;
      period_start = if changed then w.start else q.period_start;
      period_end = if changed then w.end else q.period_end;
      limit = p.limit;
      consumed = if changed then pos 0 else q.consumed;
      reserved = if changed then pos 0 else q.reserved;
      hard_limit = p.hard_limit;
      enabled = true;
      lock_version = q.lock_version + 1;
    }

abbrev pub users_open_row : ℕ → ℕ → Reservation → Bool
users_open_row app id o = o.application_id == app && (o.user_id == id && is_reserved o.status)

abbrev pub release_reservation : ℕ → Reservation → Reservation
release_reservation now o = record o {
  status = released;
  released_at = some now;
  lock_version = o.lock_version + 1;
}

abbrev pub policy_key : Policy → ℕ → ℕ → Key
policy_key p user_id uuid = record {
  kind = policy_change;
  subject = p.id;
  detail = user_id;
  nonce = uuid;
}

-- The writes for a rule whose terms differ from the quota's.
unfoldable pub regrant : ℕ → ℕ → Policy → Window → Quota → ℕ → ℕ → Tx (Unit {0})
regrant app user_id p w q uuid now = do
  closed ←
      update_reservations
        (λ o. period_changed p w q && (ltb_ℤ (pos 0) q.reserved && users_open_row app user_id o))
        (release_reservation now)
  set_quota q.id (regranted p w q)
  create_entry (
      grant_entry (policy_key p user_id uuid) ((regranted p w q).consumed -ℤ q.consumed)
        ((regranted p w q).reserved -ℤ q.reserved) (regranted p w q))

abbrev pub is_none : Option ℕ → Bool
is_none none = true
is_none (some _) = false

unfoldable pub withdraw : ℕ → Quota → Tx (Unit {0})
withdraw uuid q = if is_none q.policy_id || not q.enabled then pure tt else do
  set_quota q.id (withdrawn q)
  create_entry (
      grant_entry (record { kind = policy_none; subject = q.user_id; detail = 0; nonce = uuid })
        (pos 0) (pos 0) (withdrawn q))

-- The branches of `materializeEffectiveAiuQuotaPolicy` on the rule and the quota.
unfoldable pub materialize_from :
    (PeriodType → ℕ → ℕ × ℕ) → ℕ → ℕ → ℕ → ℕ → ℕ → Option Policy → Option Quota → Tx (Unit {0})
materialize_from calendar app user_id fresh uuid now none none = pure tt
materialize_from calendar app user_id fresh uuid now none (some q) = withdraw uuid q
materialize_from calendar app user_id fresh uuid now (some p) none = do
  w ← policy_window calendar p now
  create_quota (granted fresh app user_id p w)
  create_entry
      (grant_entry (policy_key p user_id uuid) (pos 0) (pos 0) (granted fresh app user_id p w))
materialize_from calendar app user_id fresh uuid now (some p) (some q) = do
  w ← policy_window calendar p now
  if unchanged p w q then pure tt else regrant app user_id p w q uuid now

unfoldable pub materialize :
    (PeriodType → ℕ → ℕ × ℕ) → List Policy → ℕ → ℕ → ℕ → ℕ → ℕ → Tx (Unit {0})
materialize calendar policies app user_id fresh uuid now = do
  q ← find_quota app user_id
  materialize_from calendar app user_id fresh uuid now (resolve_policy app user_id policies) q
