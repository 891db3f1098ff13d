-- ===== src/Quota/Reserve.antt =====
-- Reserving AIU before a model call: `create`, `resolveCandidates` and `existing` of
-- apps/api/src/runtime/user-reservation.service.ts.
pub mod Safety
use token_pilot.Base.{
  ℕ, ◌+◌, ◌*◌, Bool, true, false, Option, none, some, List, [], ◌∷◌, ◌&&◌, ◌||◌, not, ◌==◌, leb,
  if◌then◌else◌, find, includes, any, same_list, map, keep,
}
use token_pilot.Base.Int.{ℤ, pos, ◌+ℤ◌, ltb_ℤ, eqb_ℤ}
use token_pilot.Quota.Types.{
  User, Quota, Reservation, Status, PeriodType, fixed_window, same_period, is_reserved, Entry,
  reserve, reservation_reserve,
}
use token_pilot.Quota.Store.{
  Tx, Result, ok, err, pure, throw, throw_if, ◌>>=◌, ◌>>◌, update_quota, create_entry,
  create_reservation, write_conflict, conflict, not_found, user_missing, operation_reused,
  lineage_invalid, candidates_foreign, model_missing,
}
use token_pilot.Quota.Claims.{
  is_operation, Codec, Summary, user_summary, remaining_aiu, reservation_claims, sort_ids,
  find_reservation, quota_row,
}
use token_pilot.Quota.Settle.{find_quota}
use token_pilot.Quota.Policy.{Policy}
use token_pilot.Quota.Materialize.{materialize}
use token_pilot.Quota.Rollover.{rollover}

pub data Reason : Type 0 where
  user_blocked quota_not_set quota_observed_only quota_period_ended : Reason
  quota_exhausted operation_already_closed granted : Reason

-- The `reservation` of the response.
pub record Grant : Type 0 where
  pub id : ℕ
  pub token : ℕ
  pub reserved : ℤ
  pub expires_at : ℕ

pub record Outcome : Type 0 where
  pub allowed : Bool
  pub reason : Reason
  pub user : Summary
  pub reservation : Option Grant

abbrev pub denied : ℕ → Reason → Option Quota → Outcome
denied id reason q = record {
  allowed = false;
  reason = reason;
  user = user_summary id q;
  reservation = none;
}

pub record Request : Type 0 where
  pub user_id : ℕ
  pub operation_id : ℕ
  pub virtual_model : ℕ
  pub candidate_model_ids : Option (List ℕ)
  pub estimated : ℤ

-- The new row, its quota and its ledger entry.
abbrev pub new_reservation : ℕ → ℕ → ℕ → Quota → Request → List ℕ → ℕ → Reservation
new_reservation id app user q r models expires_at = record {
  id = id;
  application_id = app;
  user_id = user;
  quota_id = q.id;
  operation_id = r.operation_id;
  virtual_model = r.virtual_model;
  candidate_model_ids = models;
  estimated = r.estimated;
  reserved = r.estimated;
  settled = pos 0;
  token_hash = 0;
  status = Status.reserved;
  expires_at = expires_at;
  settled_at = none;
  released_at = none;
  lock_version = 0;
}

abbrev pub hold_quota : ℤ → Quota → Quota
hold_quota estimate q = record q {
  reserved = q.reserved +ℤ estimate;
  lock_version = q.lock_version + 1;
}

abbrev pub hold_entry : ℕ → ℕ → ℕ → ℤ → Quota → Entry
hold_entry id app user estimate q = record {
  application_id = app;
  user_id = user;
  quota_id = q.id;
  entry_type = reserve;
  consumed_delta = pos 0;
  reserved_delta = estimate;
  consumed_after = q.consumed;
  reserved_after = q.reserved +ℤ estimate;
  limit_after = q.limit;
  source_event_id = none;
  source_reservation_id = some id;
  key = record { kind = reservation_reserve; subject = id; detail = 0; nonce = 0 };
}

module _ (codec : Codec) (app : ℕ) where
  -- The row that is stored carries the hash of its token.
  abbrev pub signed : Reservation → Reservation
  signed row = record row { token_hash = codec.hash (codec.sign (reservation_claims row)) }

  abbrev pub grant_of : Reservation → Grant
  grant_of row = record {
    id = row.id;
    token = codec.sign (reservation_claims row);
    reserved = row.reserved;
    expires_at = row.expires_at;
  }

  unfoldable pub hold : ℕ → ℕ → Quota → Request → List ℕ → ℕ → Tx Outcome
  hold id user q r models expires_at = do
    changed ← update_quota app q.id q.lock_version (hold_quota r.estimated)
    throw_if (not (changed == 1)) write_conflict
    create_reservation (signed (new_reservation id app user q r models expires_at))
    create_entry (hold_entry id app user r.estimated q)
    pure (record {
      allowed = true;
      reason = granted;
      user = user_summary user (some (hold_quota r.estimated q));
      reservation = some (grant_of (new_reservation id app user q r models expires_at));
    })

  -- Another operation under the same identifier.
  abbrev pub is_reused : Reservation → Request → List ℕ → Bool
  is_reused row r models =
      not (row.virtual_model == r.virtual_model)
      || (not (eqb_ℤ row.estimated r.estimated)
          || not (same_list (sort_ids row.candidate_model_ids) models))

  abbrev pub is_foreign : Reservation → Bool
  is_foreign row = not (codec.hash (codec.sign (reservation_claims row)) == row.token_hash)

  -- `existing`: the operation was reserved before.
  unfoldable pub existing : Reservation → Request → List ℕ → Tx Outcome
  existing row r models = if is_reused row r models then throw (conflict operation_reused) else do
    q ← quota_row row.quota_id
    if not (is_reserved row.status)
        then pure (denied row.user_id operation_already_closed (some q))
        else if is_foreign row
        then throw (conflict lineage_invalid)
        else pure (record {
          allowed = true;
          reason = granted;
          user = user_summary row.user_id (some q);
          reservation = some (grant_of row);
        })

  unfoldable pub reserve_or_hold :
      Option Reservation → ℕ → ℕ → Quota → Request → List ℕ → ℕ → Tx Outcome
  reserve_or_hold (some row) id user q r models expires_at = existing row r models
  reserve_or_hold none id user q r models expires_at =
      if ltb_ℤ (remaining_aiu q) r.estimated
      then pure (denied user quota_exhausted (some q))
      else hold id user q r models expires_at

  -- A fixed window that is over is not renewed.
  abbrev pub has_ended : ℕ → Quota → Bool
  has_ended now q = elim q.period_end [
    | none ↦ false
    | some end ↦ same_period q.period_type fixed_window && leb end now
  ]

  unfoldable pub reserve_from :
      (PeriodType → ℕ → ℕ × ℕ) → Option Quota → ℕ → ℕ → Request → List ℕ → ℕ → ℕ → Tx Outcome
  reserve_from calendar none id user r models now ttl_seconds = pure (record {
    allowed = true;
    reason = quota_not_set;
    user = user_summary user none;
    reservation = none;
  })
  reserve_from calendar (some current) id user r models now ttl_seconds =
      if not current.enabled || not current.hard_limit
      then pure (record {
        allowed = true;
        reason = quota_observed_only;
        user = user_summary user (some current);
        reservation = none;
      })
      else if has_ended now current
      then pure (denied user quota_period_ended (some current))
      else do
        q ← rollover calendar current user app now
        row ← find_reservation (is_operation app user r.operation_id)
        reserve_or_hold row id user q r models (now + ttl_seconds * 1000)

  unfoldable pub find_user : ℕ → Tx (Option User)
  find_user id s = ok (find (λ u. u.application_id == app && u.id == id) s.users, s)

  unfoldable pub reserve_user :
      (PeriodType → ℕ → ℕ × ℕ) → Option User → ℕ → Request → List ℕ → ℕ → ℕ → Tx Outcome
  reserve_user calendar none id r models now ttl_seconds = throw (not_found user_missing)
  reserve_user calendar (some user) id r models now ttl_seconds = do
    q ← find_quota app user.id
    if user.blocked
        then pure (denied user.id user_blocked q)
        else reserve_from calendar q id user.id r models now ttl_seconds

  -- The transaction of `create`, for a user that is not blocked and candidates that were resolved.
  unfoldable pub reserve_transaction :
      (PeriodType → ℕ → ℕ × ℕ) → List Policy → ℕ → ℕ → ℕ → ℕ → Request → List ℕ → ℕ → ℕ → Tx Outcome
  reserve_transaction calendar policies user_id quota_id id uuid r models now ttl_seconds = do
    materialize calendar policies app user_id quota_id uuid now
    user ← find_user user_id
    reserve_user calendar user id r models now ttl_seconds

-- `virtualModel` with its targets.
pub record Target : Type 0 where
  pub model_id : ℕ
  pub enabled : Bool
  pub model_enabled : Bool

pub record VirtualModel : Type 0 where
  pub application_id : ℕ
  pub name : ℕ
  pub enabled : Bool
  pub targets : List Target

abbrev pub add_once : ℕ → List ℕ → List ℕ
add_once x xs = if includes x xs then xs else x ∷ xs

-- `[...new Set(ids)]`, whose order the sort below undoes.
unfoldable pub unique : List ℕ → List ℕ
unique [] = []
unique (x ∷ xs) = add_once x (unique xs)

abbrev pub available : VirtualModel → List ℕ
available m = unique (map (λ t. t.model_id) (keep (λ t. t.enabled && t.model_enabled) m.targets))

abbrev pub is_empty : List ℕ → Bool
is_empty [] = true
is_empty (x ∷ xs) = false

abbrev pub requested : VirtualModel → Request → List ℕ
requested m r = elim r.candidate_model_ids [ none ↦ available m | some ids ↦ ids ]

unfoldable pub resolve_candidates : List VirtualModel → ℕ → Request → Result (List ℕ)
resolve_candidates models app r =
    elim (find (λ m. m.application_id == app && (m.name == r.virtual_model && m.enabled)) models) [
      | none ↦ err (not_found model_missing)
      | some m ↦
          if is_empty (requested m r) || any (λ id. not (includes id (available m))) (requested m r)
          then err (conflict candidates_foreign)
          else ok (sort_ids (unique (requested m r)))
    ]
