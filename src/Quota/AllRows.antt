-- ===== src/Quota/AllRows.antt =====
-- The invariant under a write that closes every open reservation of a quota and empties the quota's
-- reserved counter.
use token_pilot.Base.{◌≡◌, Bool, true, false, some, All-map, update_where}
use token_pilot.Base.Int.{pos, ◌+ℤ◌, ◌-ℤ◌, int_laws}
use token_pilot.Quota.Types.{Store, Quota, Reservation, Entry, is_reserved}
use token_pilot.Quota.Store.{counters_ok}
use token_pilot.Quota.Balance.{Inv, Linked, owner, tenant, written, written-Inv, counts_for}
use token_pilot.Quota.Rows.{
  Preserves, update_where-Linked, update_where-Distinct, held-update_every,
}

module _ (s : Store) (q q' : Quota) (p : Reservation → Bool) (f : Reservation → Reservation)
    (e : Entry) (found : s.quotas q.id ≡ some q) (same : Preserves f)
    (closes : (o : Reservation) → is_reserved (f o).status ≡ false)
    (selects : (o : Reservation)
      → Linked s.quota_of (owner s.quotas) (tenant s.quotas) o
      → (counts_for q.id o ≡ true → p o ≡ true) × (p o ≡ true → o.quota_id ≡ q.id)) where
  pub all_rows-Inv :
      counters_ok q' ≡ true
      → Inv s
      → q'.id ≡ q.id
      → q'.user_id ≡ q.user_id
      → q'.application_id ≡ q.application_id
      → e.quota_id ≡ q.id
      → q'.consumed ≡ q.consumed +ℤ e.consumed_delta
      → q'.reserved ≡ pos 0
      → e.reserved_delta ≡ pos 0 -ℤ q.reserved
      → Inv (written s q.id q' (update_where p f s.reservations) e)
  all_rows-Inv good v same_id same_user same_app quota spends empties delta =
      let (none_left, others) =
        held-update_every p f same q.id s.reservations closes
          (All-map selects s.reservations v.linked) in
      written-Inv s q.id q q' _ e found same_id same_user same_app quota spends
        (grind (int_laws, delta, empties)) good v (λ j ne. others j ne)
        (let before = v.held_eq q.id in grind (int_laws, before, found, none_left, delta))
        (update_where-Linked p f same _ _ _ _ v.linked)
        (update_where-Distinct p f same _ v.distinct)
