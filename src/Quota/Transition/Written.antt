-- ===== src/Quota/Transition/Written.antt =====
-- What the writes of a settlement or a release leave behind.
use token_pilot.Base.{ℕ, ◌≡◌, refl, ◌∙◌, Bool, true, some, ◌∷◌, arith, find, update_where}
use mathlib.Core.Bool.{true≢false}
use token_pilot.Base.Int.{ℤ, pos, int_laws, sub-eq_add_neg}
use token_pilot.Quota.Types.{Store, Quota, Reservation, is_reserved}
use token_pilot.Quota.Store.{counters_ok, put}
use token_pilot.Quota.Rules.{
  Post, pure-Post, throw_if-Post, update_reservations-Post, update_quota-Post, create_entry-Post,
}
use token_pilot.Quota.Balance.{Inv}
use token_pilot.Quota.OneRow.{one_row-Inv}
use token_pilot.Quota.Rows.{Preserves, contribution}
use token_pilot.Quota.Claims.{Transition, transition_result}
use token_pilot.Quota.Transition.{
  Action, settle, release, open_row, close_reservation, close_quota, close_entry, close_row,
}

pub close-Preserves :
    (action : Action) (actual : ℤ) (now : ℕ) → Preserves (close_reservation action actual now)
close-Preserves settle actual now = record {
  same_id = λ o. refl;
  same_user = λ o. refl;
  same_quota = λ o. refl;
  same_app = λ o. refl;
}
close-Preserves release actual now = record {
  same_id = λ o. refl;
  same_user = λ o. refl;
  same_quota = λ o. refl;
  same_app = λ o. refl;
}

module _ (s : Store) (row : Reservation) (quota : Quota) (action : Action) (actual : ℤ) (now : ℕ)
    (found : s.quotas row.quota_id ≡ some quota) where
  abbrev pub closed_store : Store
  closed_store = record s {
    quotas = put s.quotas row.quota_id (close_quota action actual row quota);
    reservations =
        update_where (open_row row.application_id row.id row.lock_version)
          (close_reservation action actual now) s.reservations;
    ledger = close_entry action actual row quota ∷ s.ledger;
  }

  -- The writes succeed only by leaving exactly this store.
  pub close_row-Post :
      (P : Transition → Store → Type 0)
      → (counters_ok (close_quota action actual row quota) ≡ true
          → P
              (transition_result
                (close_reservation action actual now row)
                (close_quota action actual row quota))
              closed_store)
      → Post P s (close_row row quota action actual now)
  unfolding close_row
  close_row-Post P p = update_reservations-Post _ _ _ (
      throw_if-Post _ _ _ λ _.
        update_quota-Post _ _ _ _ quota _ found
          (λ good. throw_if-Post _ _ _ λ _. create_entry-Post _ _ (pure-Post (p good)))
          (throw_if-Post _ _ _ λ h. absurd (true≢false h)))

  close-contribution :
      (a : Action) (j : ℕ) → contribution j (close_reservation a actual now row) ≡ pos 0
  close-contribution settle j = refl
  close-contribution release j = refl

  -- They keep the invariant, if the row was open.
  pub closed-Inv :
      (p : Reservation → Bool)
      → counters_ok (close_quota action actual row quota) ≡ true
      → Inv s
      → find p s.reservations ≡ some row
      → is_reserved row.status ≡ true
      → Inv closed_store
  closed-Inv p good v at is_open =
      one_row-Inv s row quota (close_quota action actual row quota) _ _
        (close_entry action actual row quota) found (close-Preserves action actual now)
        (ground arith) (λ o ne. ground arith) p good v at refl refl refl refl refl
        (sub-eq_add_neg _ _) (close-contribution action row.quota_id ∙ grind int_laws)
