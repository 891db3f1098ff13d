-- ===== src/Quota/Materialize/Safety.antt =====
-- Applying the rule of a user to the user's quota keeps the invariant.
use token_pilot.Base.{
  and_false, ℕ, ◌≡◌, refl, sym, ◌∙◌, ap, Bool, true, false, Option, some, none, List, [], ◌∷◌, ◌&&◌,
  ◌||◌, not, arith, inl, inr, update_where, Bool-cases,
}
use token_pilot.Base.Int.{◌≤ℤ◌, pos, ◌-ℤ◌, ltb_ℤ, int_laws}
use token_pilot.Quota.Types.{
  Store, Quota, Reservation, Entry, PeriodType, fixed_window, same_period,
}
use token_pilot.Quota.Store.{relation_missing, in_range_nonneg, counters_ok, throw, pure}
use token_pilot.Quota.Claims.{is_operation}
use token_pilot.Quota.Rules.{Post, pure-Post, throw-Post, if-Post, update_reservations-Post}
use token_pilot.Quota.Balance.{Inv, Linked, owner, tenant, written, written-Inv, counts_for}
use token_pilot.Quota.Rows.{Preserves, NewOps, find-update_where-none}
use token_pilot.Quota.AllRows.{all_rows-Inv}
use token_pilot.Quota.Queries.{create_entry_last-Post, IsQuotaOf, bind-Post, find_quota-Post}
use token_pilot.Quota.Policy.{Policy, resolve_policy}
use token_pilot.Quota.Materialize.{
  Window, policy_window, grant_entry, withdrawn, granted, period_changed, unchanged, regranted,
  users_open_row, release_reservation, policy_key, regrant, is_none, withdraw, materialize_from,
  materialize,
}
use token_pilot.Quota.Materialize.Writes.{set_quota-Post, create_quota-Post}
use token_pilot.Quota.Materialize.Opened.{opened-Inv}
use token_pilot.Quota.Rollover.Safety.{window_kept-Post}

abbrev pub Applied : Store → Store → Type 0
Applied s t = Inv t × NewOps s t

release-Preserves : (now : ℕ) → Preserves (release_reservation now)
release-Preserves now = record {
  same_id = λ o. refl;
  same_user = λ o. refl;
  same_quota = λ o. refl;
  same_app = λ o. refl;
}

module _ (s : Store) (v : Inv s) where
  unmoved : NewOps s s
  unmoved = record { absent = λ a u op h. h }

  -- A row that changes no counter.
  settings-Inv :
      (q q' : Quota) (e : Entry)
      → s.quotas q.id ≡ some q
      → q'.id ≡ q.id
      → q'.user_id ≡ q.user_id
      → q'.application_id ≡ q.application_id
      → e.quota_id ≡ q.id
      → q'.consumed ≡ q.consumed
      → q'.reserved ≡ q.reserved
      → e.consumed_delta ≡ pos 0
      → e.reserved_delta ≡ pos 0
      → counters_ok q' ≡ true
      → Inv (written s q.id q' s.reservations e)
  settings-Inv q q' e found same_id same_user same_app quota spends locks no_spend no_lock good =
      written-Inv s q.id q q' s.reservations e found same_id same_user same_app quota
        (rw (spends, no_spend) (omega int_laws)) (rw (locks, no_lock) (omega int_laws)) good v
        (λ j ne. refl) (rw no_lock (omega int_laws)) v.linked v.distinct

  withdraw-Post :
      (app user uuid : ℕ) (q : Quota)
      → IsQuotaOf s app user q
      → Post (λ _ t. Applied s t) s (withdraw uuid q)
  unfolding withdraw
  withdraw-Post app user uuid q own =
      if-Post (is_none q.policy_id || not q.enabled) (λ _. pure-Post (v, unmoved))
        λ _. set_quota-Post _ _ _ λ good. create_entry_last-Post _ (
          settings-Inv q (withdrawn q) _ own.stored refl refl refl refl refl refl refl refl good,
          record { absent = λ a u op h. h },
        )

update_where-none :
    (p : Reservation → Bool) (f : Reservation → Reservation) (rs : List Reservation)
    → ((o : Reservation) → p o ≡ false)
    → update_where p f rs ≡ rs
update_where-none p f [] h = refl
update_where-none p f (o ∷ rs) h = rw (h o, update_where-none p f rs h)

counters_nonneg : (q : Quota) → counters_ok q ≡ true → pos 0 ≤ℤ q.reserved
unfolding counters_ok
counters_nonneg q good = in_range_nonneg q.reserved (ground arith)

module _ (s : Store) (v : Inv s) (app user : ℕ) (p : Policy) (w : Window) (q : Quota) (uuid now : ℕ)
    (own : IsQuotaOf s app user q) where
  abbrev closing : Reservation → Bool
  closing o = period_changed p w q && (ltb_ℤ (pos 0) q.reserved && users_open_row app user o)

  abbrev change_entry : Entry
  change_entry =
      grant_entry (policy_key p user uuid) ((regranted p w q).consumed -ℤ q.consumed)
        ((regranted p w q).reserved -ℤ q.reserved) (regranted p w q)

  closing_selects :
      period_changed p w q ≡ true
      → ltb_ℤ (pos 0) q.reserved ≡ true
      → (o : Reservation) → Linked s.quota_of (owner s.quotas) (tenant s.quotas) o
      → (counts_for q.id o ≡ true → closing o ≡ true) × (closing o ≡ true → o.quota_id ≡ q.id)
  closing_selects changed some_held o linked = (
    λ h.
        let at : o.quota_id ≡ q.id = ground arith in
        let app_named : some app ≡ some o.application_id =
          sym (rw (own.stored, tenant) (ap some own.of_app)) ∙ rw at at linked.2 in
        let user_named : some user ≡ some o.user_id =
          sym (rw (own.stored, owner) (ap some own.of_user)) ∙ rw at at linked.1 in
        let same_app : app ≡ o.application_id = cc in
        let same_user : user ≡ o.user_id = cc in ground (arith, changed, some_held),
    λ h.
        let same_user : o.user_id ≡ user = ground arith in
        let index : some q.id ≡ some o.quota_id =
          sym own.is_indexed ∙ ap s.quota_of (sym same_user) ∙ linked.0 in
        cc,
  )

  -- Nothing is closed where the period goes on, and where nothing is reserved.
  unclosed_Inv :
      (period_changed p w q && ltb_ℤ (pos 0) q.reserved) ≡ false
      → (regranted p w q).reserved ≡ q.reserved
      → counters_ok (regranted p w q) ≡ true
      → Inv (
          written s q.id
            (regranted p w q)
            (update_where closing (release_reservation now) s.reservations)
            change_entry)
  unclosed_Inv h locks good =
      let same : update_where closing (release_reservation now) s.reservations ≡ s.reservations =
        update_where-none closing (release_reservation now) s.reservations (λ o. ground arith) in
      rw same (
        written-Inv s q.id q (regranted p w q) s.reservations change_entry own.stored refl refl refl
          refl (omega int_laws) (omega int_laws) good v (λ j ne. refl) (rw locks (omega int_laws))
          v.linked v.distinct)

  regranted-Inv :
      counters_ok (regranted p w q) ≡ true
      → Inv (
          written s q.id
            (regranted p w q)
            (update_where closing (release_reservation now) s.reservations)
            change_entry)
  regranted-Inv good = elim (Bool-cases (period_changed p w q)) [
    | inr goes_on ↦ unclosed_Inv (rw goes_on refl) (rw goes_on refl) good
    | inl changed ↦ elim (Bool-cases (ltb_ℤ (pos 0) q.reserved)) [
      | inr free ↦
          let nonneg = counters_nonneg q (v.bounded q.id q own.stored) in
          let zero : q.reserved ≡ pos 0 = grind int_laws in
          unclosed_Inv (rw free (and_false (period_changed p w q))) (rw (changed, zero) refl) good
      | inl some_held ↦
          all_rows-Inv s q (regranted p w q) closing (release_reservation now) change_entry
            own.stored (release-Preserves now) (λ o. refl) (closing_selects changed some_held) good
            v refl refl refl refl (omega int_laws) (rw changed refl) (rw changed refl)
    ]
  ]

  regrant-Post : Post (λ _ t. Applied s t) s (regrant app user p w q uuid now)
  unfolding regrant
  regrant-Post = update_reservations-Post _ _ _ (
      set_quota-Post _ _ _ λ good. create_entry_last-Post _ (
        regranted-Inv good,
        record {
          absent = λ a u op.
              find-update_where-none (is_operation a u op) closing (release_reservation now)
                (λ o. refl) s.reservations;
        },
      ))

policy_window-Post :
    (s : Store) (calendar : PeriodType → ℕ → ℕ × ℕ) (p : Policy) (now : ℕ)
    → Post (λ _ t. s ≡ t) s (policy_window calendar p now)
unfolding policy_window
policy_window-Post s calendar p now =
    if-Post (same_period p.period_type fixed_window) (λ _. from_start p.starts_at)
      (λ _. window_kept-Post s calendar p.period_type now none)
  where
    from_start :
        (o : Option ℕ)
        → Post {A = Window}
            (λ _ t. s ≡ t)
            s
            (elim o [
              | none ↦ throw relation_missing
              | some start ↦ pure (record { start = start; end = p.ends_at })
            ])
    from_start none = throw-Post
    from_start (some start) = pure-Post refl

module _ (calendar : PeriodType → ℕ → ℕ × ℕ) (s : Store) (v : Inv s)
    (app user fresh uuid now : ℕ) where
  materialize_from-Post :
      (rule : Option Policy) (o : Option Quota)
      → ((q : Quota) → o ≡ some q → IsQuotaOf s app user q)
      → Post (λ _ t. Applied s t) s (materialize_from calendar app user fresh uuid now rule o)
  unfolding materialize_from
  materialize_from-Post none none own = pure-Post (v, unmoved s v)
  materialize_from-Post none (some q) own = withdraw-Post s v app user uuid q (own q refl)
  materialize_from-Post (some p) none own =
      bind-Post _ _ (policy_window-Post s calendar p now) λ w t same. rw (← same) (
        create_quota-Post _ _ λ absent no_index good. create_entry_last-Post _ (
          opened-Inv s v (granted fresh app user p w) _ absent no_index refl refl refl refl good,
          record { absent = λ a u op h. h },
        ))
  materialize_from-Post (some p) (some q) own =
      bind-Post _ _ (policy_window-Post s calendar p now) λ w t same. rw (← same) (
        if-Post (unchanged p w q) (λ _. pure-Post (v, unmoved s v))
          (λ _. regrant-Post s v app user p w q uuid now (own q refl)))

  pub materialize-Post :
      (policies : List Policy)
      → Post (λ _ t. Applied s t) s (materialize calendar policies app user fresh uuid now)
  unfolding materialize
  materialize-Post policies =
      find_quota-Post _ _ _ v
        λ o own. materialize_from-Post (resolve_policy app user policies) o own
