-- ===== src/Quota/Settle/Safety.antt =====
-- Charging a usage event keeps the quota's counters in step with its ledger and its reservations.
use mathlib.Core.Bool.{true≢false}
use token_pilot.Base.{
  or_true, ℕ, ◌≡◌, refl, Bool, true, false, Option, none, some, not, arith, find, update_where,
}
use token_pilot.Base.Int.{ℤ, pos, ◌+ℤ◌, ◌-ℤ◌, eqb_ℤ, int_laws, sub-eq_add_neg}
use token_pilot.Quota.Types.{
  Store, Quota, Reservation, Status, reserved, settled, released, expired, unknown_status,
  is_reserved, is_settled, Entry,
}
use token_pilot.Quota.Store.{counters_ok, ok}
use token_pilot.Quota.Rules.{
  Post, pure-Post, throw-Post, throw_if-Post, if-Post, find_reservation-Post, quota_row-Post,
  update_reservations-Post, update_quota-Post, create_entry-Post,
}
use token_pilot.Quota.Balance.{Inv, written, written-Inv}
use token_pilot.Quota.Rows.{Preserves, contribution}
use token_pilot.Quota.OneRow.{one_row-Inv}
use token_pilot.Quota.Queries.{find_entry-Post, find_quota-Post}
use token_pilot.Quota.Settle.{
  Consumption, or_zero, settled_row, resettle, settle_reservation, charge_quota, settlement_entry,
  reconcile_row, settle_row, settle_by_status, is_row_of, settle_found, reconcile_key,
  consume_entry, consume_quota, consume_new, consume_once, consume_from, consume_direct,
  apply_user_aiu,
}

pub resettle-Preserves : (amount : ℤ) → Preserves (resettle amount)
resettle-Preserves amount = record {
  same_id = λ o. refl;
  same_user = λ o. refl;
  same_quota = λ o. refl;
  same_app = λ o. refl;
}

pub settle-Preserves : (amount : ℤ) (now : ℕ) → Preserves (settle_reservation amount now)
settle-Preserves amount now = record {
  same_id = λ o. refl;
  same_user = λ o. refl;
  same_quota = λ o. refl;
  same_app = λ o. refl;
}

module _ (s : Store) (row : Reservation) (q : Quota) (event : ℕ) (amount : ℤ) (now : ℕ)
    (found : s.quotas row.quota_id ≡ some q) (query : Reservation → Bool)
    (at : find query s.reservations ≡ some row) where
  resettle-contribution :
      is_settled row.status ≡ true
      → contribution row.quota_id (resettle amount row)
        ≡ contribution row.quota_id row +ℤ (pos 0 -ℤ pos 0)
  resettle-contribution is_closed =
      let shut : is_reserved row.status ≡ false = ground arith in rw shut (omega int_laws)

  reconcile_row-Inv :
      Inv s
      → is_settled row.status ≡ true
      → Post (λ _ t. Inv t) s (reconcile_row row q event amount)
  unfolding reconcile_row
  reconcile_row-Inv v is_closed = update_reservations-Post _ _ _ (
      update_quota-Post _ _ _ _ q _ found
        (λ good. throw_if-Post _ _ _ λ _. create_entry-Post _ _ (pure-Post (kept good)))
        (throw_if-Post _ _ _ λ h. absurd (or_true _ h)))
    where
      kept :
          counters_ok (charge_quota (amount -ℤ row.settled) (pos 0) q) ≡ true
          → Inv (
              written s row.quota_id
                (charge_quota (amount -ℤ row.settled) (pos 0) q)
                (update_where
                  (settled_row row.application_id row.id row.lock_version)
                  (resettle amount)
                  s.reservations)
                (settlement_entry
                  (amount -ℤ row.settled)
                  (pos 0)
                  (reconcile_key event)
                  event
                  row
                  q))
      kept good =
          one_row-Inv s row q _ _ _ _ found (resettle-Preserves amount) (ground arith)
            (λ o ne. ground arith) query good v at refl refl refl refl refl (sub-eq_add_neg _ _)
            (resettle-contribution is_closed)

  settle_row-Inv :
      Inv s
      → is_reserved row.status ≡ true
      → Post (λ _ t. Inv t) s (settle_row row q event amount now)
  unfolding settle_row
  settle_row-Inv v is_open = update_reservations-Post _ _ _ (
      update_quota-Post _ _ _ _ q _ found
        (λ good. throw_if-Post _ _ _ λ _. create_entry-Post _ _ (
          pure-Post (
            one_row-Inv s row q _ _ _ _ found (settle-Preserves amount now) (ground arith)
              (λ o ne. ground arith) query good v at refl refl refl refl refl (sub-eq_add_neg _ _)
              (grind int_laws))))
        (throw_if-Post _ _ _ λ h. absurd (or_true _ h)))

  settle_by_status-Inv :
      (st : Status)
      → row.status ≡ st
      → Inv s
      → Post (λ _ t. Inv t) s (settle_by_status st row q event amount now)
  unfolding settle_by_status
  settle_by_status-Inv settled is v =
      if-Post (eqb_ℤ row.settled amount) (λ _. pure-Post v) (λ _. reconcile_row-Inv v (rw is))
  settle_by_status-Inv reserved is v = settle_row-Inv v (rw is)
  settle_by_status-Inv released is v = throw-Post
  settle_by_status-Inv expired is v = throw-Post
  settle_by_status-Inv unknown_status is v = throw-Post

module _ (s : Store) (v : Inv s) where
  settle_found-Inv :
      (o : Option Reservation) (query : Reservation → Bool) (event : ℕ) (amount : ℤ) (now : ℕ)
      → find query s.reservations ≡ o
      → Post (λ _ t. Inv t) s (settle_found o event amount now)
  unfolding settle_found
  settle_found-Inv none query event amount now at = throw-Post
  settle_found-Inv (some row) query event amount now at =
      quota_row-Post _ _
        λ q found. settle_by_status-Inv s row q event amount now found query at row.status refl v

  -- A charge to the quota alone.
  consume_new-Inv :
      (app user event : ℕ) (amount : ℤ) (q : Quota)
      → s.quotas q.id ≡ some q
      → Post (λ _ t. Inv t) s (consume_new app user event amount q)
  unfolding consume_new
  consume_new-Inv app user event amount q found =
      update_quota-Post _ _ _ _ q _ found
        (λ good. throw_if-Post _ _ _ λ _. create_entry-Post _ _ (
          pure-Post (
            written-Inv s q.id q (consume_quota amount q) s.reservations
              (consume_entry amount app user event q) found refl refl refl refl refl
              (omega int_laws) good v (λ j ne. refl) (omega int_laws) v.linked v.distinct)))
        (throw_if-Post _ _ _ λ h. absurd (true≢false h))

  consume_from-Inv :
      (o : Option Quota) (app user event : ℕ) (amount : ℤ)
      → ((q : Quota) → o ≡ some q → s.quotas q.id ≡ some q)
      → Post (λ _ t. Inv t) s (consume_from o app user event amount)
  unfolding consume_from consume_once
  consume_from-Inv none app user event amount own = pure-Post v
  consume_from-Inv (some q) app user event amount own =
      if-Post (not q.enabled) (λ _. pure-Post v) λ _. find_entry-Post _ _ _ (once (find _ s.ledger))
    where
      once : (o : Option Entry) → Post (λ _ t. Inv t) s (consume_once o app user event amount q)
      once none = consume_new-Inv app user event amount q (own q refl)
      once (some e) = pure-Post v

  consume_direct-Inv :
      (app user event : ℕ) (actual : Option ℤ)
      → Post (λ _ t. Inv t) s (consume_direct app user event actual)
  unfolding consume_direct
  consume_direct-Inv app user event none = pure-Post v
  consume_direct-Inv app user event (some amount) =
      find_quota-Post _ _ _ v
        λ o own. consume_from-Inv o app user event amount (λ q e. (own q e).stored)

-- Charging a usage event, whether to a reservation or to the quota itself, keeps the counters of every
-- quota equal to the sums of its ledger, and its reserved counter equal to what its open
-- reservations hold.
pub apply_user_aiu-Inv :
    (app user : ℕ) (reservation : Option ℕ) (event : ℕ) (actual : Option ℤ) (now : ℕ) (s s' : Store)
    (c : Option Consumption)
    → Inv s
    → apply_user_aiu app user reservation event actual now s ≡ ok (c, s')
    → Inv s'
unfolding apply_user_aiu
apply_user_aiu-Inv app user none event actual now s s' c v e =
    (consume_direct-Inv s v app user event actual).run c s' e
apply_user_aiu-Inv app user (some id) event actual now s s' c v e =
    (find_reservation-Post (is_row_of app id user)
        (λ row. settle_found row event (or_zero actual) now)
        (settle_found-Inv s v _ (is_row_of app id user) event (or_zero actual) now refl)).run
      c s' e
