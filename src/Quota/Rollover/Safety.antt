-- ===== src/Quota/Rollover/Safety.antt =====
-- Renewing a quota keeps the invariant, and leaves the row that it returns.
use mathlib.Core.Bool.{true≢false}
use token_pilot.Base.{
  ℕ, ◌≡◌, refl, sym, ◌∙◌, ap, true, Option, some, none, ltb, leb, arith, update_where,
}
use token_pilot.Base.Int.{int_laws}
use token_pilot.Quota.Types.{Store, Quota, Reservation, PeriodType}
use token_pilot.Quota.Store.{counters_ok, put_self}
use token_pilot.Quota.Claims.{is_operation}
use token_pilot.Quota.Rules.{
  Post, pure-Post, throw-Post, throw_if-Post, if-Post, update_reservations-Post, update_quota-Post,
  create_entry-Post,
}
use token_pilot.Quota.Balance.{Inv, Linked, owner, tenant, written, counts_for}
use token_pilot.Quota.Rows.{Preserves, NewOps, find-update_where-none}
use token_pilot.Quota.AllRows.{all_rows-Inv}
use token_pilot.Quota.Queries.{IsQuotaOf, bind-Post}
use token_pilot.Quota.Materialize.{Window, period_window}
use token_pilot.Quota.Rollover.{
  renewed, renew, quotas_open_row, expire_reservation, renewal_entry, rollover_from, rollover,
}

expire-Preserves : (now : ℕ) → Preserves (expire_reservation now)
expire-Preserves now = record {
  same_id = λ o. refl;
  same_user = λ o. refl;
  same_quota = λ o. refl;
  same_app = λ o. refl;
}

-- What a step of the reservation leaves for the next one.
pub record Ready (s : Store) (app user : ℕ) (q : Quota) (t : Store) : Type 0 where
  pub inv : Inv t
  pub quota : IsQuotaOf t app user q
  pub ops : NewOps s t

-- The window of a period leaves the store alone.
pub window_kept-Post :
    (s : Store) (calendar : PeriodType → ℕ → ℕ × ℕ) (type : PeriodType) (now : ℕ)
    (fixed : Option (ℕ × ℕ))
    → Post (λ _ t. s ≡ t) s (period_window calendar type now fixed)
unfolding period_window
window_kept-Post s calendar PeriodType.lifetime now fixed = pure-Post refl
window_kept-Post s calendar PeriodType.fixed_window now none = throw-Post
window_kept-Post s calendar PeriodType.fixed_window now (some (start, end)) =
    if-Post (leb end start) (λ _. throw-Post) (λ _. pure-Post refl)
window_kept-Post s calendar PeriodType.calendar_day now fixed = pure-Post refl
window_kept-Post s calendar PeriodType.calendar_week now fixed = pure-Post refl
window_kept-Post s calendar PeriodType.calendar_month now fixed = pure-Post refl
window_kept-Post s calendar PeriodType.unknown now fixed = pure-Post refl

module _ (s : Store) (v : Inv s) (app user : ℕ) (q : Quota) (own : IsQuotaOf s app user q) where
  renew_selects :
      (o : Reservation)
      → Linked s.quota_of (owner s.quotas) (tenant s.quotas) o
      → (counts_for q.id o ≡ true → quotas_open_row app q.id o ≡ true)
        × (quotas_open_row app q.id o ≡ true → o.quota_id ≡ q.id)
  renew_selects o linked = (λ h. selected h, λ h. ground arith)
    where
      selected : counts_for q.id o ≡ true → quotas_open_row app q.id o ≡ true
      selected h =
          let at : o.quota_id ≡ q.id = ground arith in
          let named : some app ≡ some o.application_id =
            sym (rw (own.stored, tenant) (ap some own.of_app)) ∙ rw at at linked.2 in
          let same : app ≡ o.application_id = cc in ground arith

  abbrev renewed_store : Window → ℕ → ℕ → Store
  renewed_store w end now =
      written s q.id (renewed w q)
        (update_where (quotas_open_row app q.id) (expire_reservation now) s.reservations)
        (renewal_entry app user end q)

  renew-Ready :
      (w : Window) (end now : ℕ)
      → counters_ok (renewed w q) ≡ true
      → Ready s app user (renewed w q) (renewed_store w end now)
  renew-Ready w end now good = record {
    inv =
        all_rows-Inv s q (renewed w q) _ _ (renewal_entry app user end q) own.stored
          (expire-Preserves now) (λ o. refl) renew_selects good v refl refl refl refl
          (omega int_laws) refl refl;
    quota = record {
      stored = put_self s.quotas q.id (renewed w q);
      is_indexed = own.is_indexed;
      of_app = own.of_app;
      of_user = own.of_user;
    };
    ops = record {
      absent = λ a u op.
          find-update_where-none (is_operation a u op) (quotas_open_row app q.id)
            (expire_reservation now) (λ o. refl) s.reservations;
    };
  }

  renew-Post : (w : Window) (end now : ℕ) → Post (Ready s app user) s (renew w q user app end now)
  unfolding renew
  renew-Post w end now =
      update_quota-Post _ _ _ _ q _ own.stored
        (λ good. throw_if-Post _ _ _ λ _.
          update_reservations-Post _ _ _
            (create_entry-Post _ _ (pure-Post (renew-Ready w end now good))))
        (throw_if-Post _ _ _ λ h. absurd (true≢false h))

  pub kept-Ready : Ready s app user q s
  kept-Ready = record { inv = v; quota = own; ops = record { absent = λ a u op h. h } }

  rollover_from-Post :
      (calendar : PeriodType → ℕ → ℕ × ℕ) (o : Option ℕ) (now : ℕ)
      → Post (Ready s app user) s (rollover_from calendar o q user app now)
  unfolding rollover_from
  rollover_from-Post calendar none now = pure-Post kept-Ready
  rollover_from-Post calendar (some end) now =
      if-Post (ltb now end) (λ _. pure-Post kept-Ready)
        λ _.
          bind-Post _ _ (window_kept-Post s calendar q.period_type now none)
            λ w t same. rw (← same) (throw_if-Post _ _ _ λ _. renew-Post w end now)

  pub rollover-Post :
      (calendar : PeriodType → ℕ → ℕ × ℕ) (now : ℕ)
      → Post (Ready s app user) s (rollover calendar q user app now)
  unfolding rollover
  rollover-Post calendar now = rollover_from-Post calendar q.period_end now
