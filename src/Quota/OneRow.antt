-- ===== src/Quota/OneRow.antt =====
-- The invariant under a write to one reservation, its quota and the ledger.
use token_pilot.Base.{ℕ, ◌≡◌, ◌≢◌, Bool, true, false, some, arith, find, update_where}
use token_pilot.Base.Int.{pos, ◌+ℤ◌, int_laws}
use token_pilot.Quota.Types.{Store, Quota, Reservation, Entry}
use token_pilot.Quota.Store.{counters_ok}
use token_pilot.Quota.Balance.{Inv, written, written-Inv, held}
use token_pilot.Quota.Rows.{
  Preserves, update_where-Linked, update_where-Distinct, held-update_one, contribution,
}

module _ (s : Store) (row : Reservation) (q q' : Quota) (p : Reservation → Bool)
    (f : Reservation → Reservation) (e : Entry) (found : s.quotas row.quota_id ≡ some q)
    (same : Preserves f) (hit : p row ≡ true)
    (others : (o : Reservation) → o.id ≢ row.id → p o ≡ false) where
  contribution-other : (j : ℕ) → j ≢ row.quota_id → contribution j row ≡ pos 0
  contribution-other j ne = ground arith

  contribution-other' : (j : ℕ) → j ≢ row.quota_id → contribution j (f row) ≡ pos 0
  contribution-other' j ne = ground (arith, same.same_quota row)

  held_other :
      (query : Reservation → Bool) (j : ℕ)
      → Inv s
      → find query s.reservations ≡ some row
      → j ≢ row.quota_id
      → held j (update_where p f s.reservations) ≡ held j s.reservations
  held_other query j v at ne =
      let one = held-update_one p f same j query s.reservations row v.distinct at hit others in
      grind (int_laws, one, contribution-other j ne, contribution-other' j ne)

  pub one_row-Inv :
      (query : Reservation → Bool)
      → counters_ok q' ≡ true
      → Inv s
      → find query s.reservations ≡ some row
      → q'.id ≡ q.id
      → q'.user_id ≡ q.user_id
      → q'.application_id ≡ q.application_id
      → e.quota_id ≡ row.quota_id
      → q'.consumed ≡ q.consumed +ℤ e.consumed_delta
      → q'.reserved ≡ q.reserved +ℤ e.reserved_delta
      → contribution row.quota_id (f row) ≡ contribution row.quota_id row +ℤ e.reserved_delta
      → Inv (written s row.quota_id q' (update_where p f s.reservations) e)
  one_row-Inv query good v at same_id same_user same_app quota spends locks delta =
      let one =
        held-update_one p f same row.quota_id query s.reservations row v.distinct at hit others in
      written-Inv s row.quota_id q q' _ e found same_id same_user same_app quota spends locks good v
        (λ j ne. held_other query j v at ne) (grind (int_laws, one))
        (update_where-Linked p f same _ _ _ _ v.linked)
        (update_where-Distinct p f same _ v.distinct)
