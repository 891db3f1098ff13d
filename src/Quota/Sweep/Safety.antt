-- ===== src/Quota/Sweep/Safety.antt =====
-- Sweeping keeps the invariant, whatever happens on the way.
use token_pilot.Base.{
  or_true, ℕ, ◌+◌, ◌≡◌, refl, Bool, true, Option, none, some, List, [], ◌∷◌, arith, find,
  update_where, if◌then◌else◌, find-test,
}
use token_pilot.Base.Int.{int_laws, sub-eq_add_neg}
use token_pilot.Quota.Types.{Store, Quota, Reservation, is_reserved}
use token_pilot.Quota.Store.{counters_ok, Result, ok, err}
use token_pilot.Quota.Rules.{
  Post, pure-Post, throw_if-Post, find_reservation-Post, quota_row-Post, update_reservations-Post,
  update_quota-Post, create_entry-Post,
}
use token_pilot.Quota.Balance.{Inv, written}
use token_pilot.Quota.Rows.{Preserves}
use token_pilot.Quota.OneRow.{one_row-Inv}
use token_pilot.Quota.Sweep.{
  due_row, lapse_reservation, lapse_quota, lapse_row, lapse_entry, lapsing_row, expire_found,
  expire_one, sweep_rows, sweep,
}

lapse-Preserves : (now : ℕ) → Preserves (lapse_reservation now)
lapse-Preserves now = record {
  same_id = λ o. refl;
  same_user = λ o. refl;
  same_quota = λ o. refl;
  same_app = λ o. refl;
}

find-due :
    (app id now : ℕ) (rs : List Reservation) (row : Reservation)
    → find (due_row app id now) rs ≡ some row
    → is_reserved row.status ≡ true
find-due app id now rs row e =
    let h : due_row app id now row ≡ true = find-test (due_row app id now) rs row e in ground arith

module _ (s : Store) (v : Inv s) (app id now : ℕ) where
  expire_found-Inv :
      (o : Option Reservation)
      → find (due_row app id now) s.reservations ≡ o
      → Post (λ _ t. Inv t) s (expire_found o now)
  unfolding expire_found lapse_row
  expire_found-Inv none at = pure-Post v
  expire_found-Inv (some row) at = quota_row-Post _ _ λ q found. throw_if-Post _ _ _ λ _.
      update_reservations-Post _ _ _ (
        update_quota-Post _ _ _ _ q _ found
          (λ good. throw_if-Post _ _ _ λ _. create_entry-Post _ _ (pure-Post (kept q found good)))
          (throw_if-Post _ _ _ λ h. absurd (or_true _ h)))
    where
      kept :
          (q : Quota)
          → s.quotas row.quota_id ≡ some q
          → counters_ok (lapse_quota row q) ≡ true
          → Inv (
              written s row.quota_id
                (lapse_quota row q)
                (update_where
                  (lapsing_row row.application_id row.id row.lock_version)
                  (lapse_reservation now)
                  s.reservations)
                (lapse_entry row q))
      kept q found good =
          let is_open = find-due app id now s.reservations row at in
          one_row-Inv s row q (lapse_quota row q) _ _ (lapse_entry row q) found
            (lapse-Preserves now) (ground arith) (λ o ne. ground arith) (due_row app id now) good v
            at refl refl refl refl (omega int_laws) (sub-eq_add_neg _ _) (grind int_laws)

  expire_one-Inv : Post (λ _ t. Inv t) s (expire_one app id now)
  unfolding expire_one
  expire_one-Inv = find_reservation-Post _ _ (expire_found-Inv _ refl)

sweep_rows-Inv :
    (rows : List Reservation) (swept now : ℕ) (s : Store)
    → Inv s
    → Inv (sweep_rows rows swept now s).1
unfolding sweep_rows
sweep_rows-Inv [] swept now s v = v
sweep_rows-Inv (row ∷ rows) swept now s v =
    go (λ lapsed t. sweep_rows-Inv rows (if lapsed then swept + 1 else swept) now t)
      (expire_one row.application_id row.id now s) refl
  where
    outcome : Result (Bool × Store) → Result ℕ × Store
    outcome r = elim r [
      | err e ↦ (err e, s)
      | ok (lapsed, t) ↦ sweep_rows rows (if lapsed then swept + 1 else swept) now t
    ]

    go :
        ((lapsed : Bool) (t : Store)
          → Inv t
          → Inv (sweep_rows rows (if lapsed then swept + 1 else swept) now t).1)
        → (r : Result (Bool × Store)) → expire_one row.application_id row.id now s ≡ r
        → Inv (outcome r).1
    go rest (err e) eq = v
    go rest (ok (lapsed, t)) eq =
        rest lapsed t ((expire_one-Inv s v row.application_id row.id now).run lapsed t eq)

-- A sweep keeps the counters of every quota equal to the sums of its ledger and to what its open
-- reservations hold, also when it stops in the middle with an error.
pub sweep-Inv : (limit now : ℕ) (s : Store) → Inv s → Inv (sweep limit now s).1
unfolding sweep
sweep-Inv limit now s v = sweep_rows-Inv _ 0 now s v
