-- ===== src/Quota/Materialize/Opened.antt =====
-- A quota that a rule has opened keeps the invariant.
use token_pilot.Base.{
  ℕ, ◌≡◌, ◌≢◌, refl, sym, ◌∙◌, ap, true, some, none, ◌∷◌, arith, All-map, ==-self,
}
use token_pilot.Base.Int.{pos, int_laws}
use token_pilot.Quota.Types.{Store, Quota, Reservation, Entry}
use token_pilot.Quota.Store.{put_self, put_ne, counters_ok}
use token_pilot.Quota.Balance.{
  Inv, Linked, owner, tenant, spent, locked, held, consumed_of, reserved_of,
}
use token_pilot.Quota.Materialize.Writes.{with_quota}
use native.Mathlib.Decide.{ℕ_discrete}

-- A quota that is created with empty counters, and its entry.
module _ (s : Store) (v : Inv s) (q : Quota) (e : Entry) (absent : s.quotas q.id ≡ none)
    (no_index : s.quota_of q.user_id ≡ none) (unspent : q.consumed ≡ pos 0)
    (free : q.reserved ≡ pos 0) (no_spend : e.consumed_delta ≡ pos 0)
    (no_lock : e.reserved_delta ≡ pos 0) (good : counters_ok q ≡ true) where
  abbrev opened : Store
  opened = record (with_quota q s) { ledger = e ∷ s.ledger }

  opened_spent : (k : ℕ) → consumed_of opened.quotas k ≡ spent k opened.ledger
  unfolding spent
  opened_spent k = elim (ℕ_discrete k q.id) [
    | yes at ↦
        let before = v.spent_eq k in grind (int_laws, put_self s.quotas q.id q, before, absent)
    | no off ↦ let before = v.spent_eq k in grind (int_laws, put_ne s.quotas q.id q k off, before)
  ]

  opened_locked : (k : ℕ) → reserved_of opened.quotas k ≡ locked k opened.ledger
  unfolding locked
  opened_locked k = elim (ℕ_discrete k q.id) [
    | yes at ↦
        let before = v.locked_eq k in grind (int_laws, put_self s.quotas q.id q, before, absent)
    | no off ↦ let before = v.locked_eq k in grind (int_laws, put_ne s.quotas q.id q k off, before)
  ]

  opened_held : (k : ℕ) → reserved_of opened.quotas k ≡ held k opened.reservations
  opened_held k = elim (ℕ_discrete k q.id) [
    | yes at ↦
        let before = v.held_eq k in grind (int_laws, put_self s.quotas q.id q, before, absent)
    | no off ↦ let before = v.held_eq k in grind (int_laws, put_ne s.quotas q.id q k off, before)
  ]

  not_owned : (k u : ℕ) → owner s.quotas k ≡ some u → k ≢ q.id
  not_owned k u h at =
      let e : none ≡ some u = sym (ap (owner s.quotas) at ∙ rw (absent, owner) refl) ∙ h in cc

  opened-Linked :
      (o : Reservation)
      → Linked s.quota_of (owner s.quotas) (tenant s.quotas) o
      → Linked opened.quota_of (owner opened.quotas) (tenant opened.quotas) o
  opened-Linked o linked =
      let other_user : o.user_id ≢ q.user_id = λ h.
        let e : none ≡ some o.quota_id = sym no_index ∙ ap s.quota_of (sym h) ∙ linked.0 in cc in
      let other_row : o.quota_id ≢ q.id = λ h. not_owned o.quota_id o.user_id linked.1 h in
      (
        ground (arith, linked.0),
        rw (put_ne s.quotas q.id q o.quota_id other_row, owner) (linked.1),
        rw (put_ne s.quotas q.id q o.quota_id other_row, tenant) (linked.2),
      )

  opened_keyed : (k : ℕ) (p : Quota) → opened.quotas k ≡ some p → p.id ≡ k
  opened_keyed k p h = elim (ℕ_discrete k q.id) [
    | yes at ↦
        let eq : some q ≡ some p = sym (put_self s.quotas q.id q) ∙ ap opened.quotas (sym at) ∙ h in
        let same : q ≡ p = cc in rw (← same) (sym at)
    | no off ↦ v.keyed k p (sym (put_ne s.quotas q.id q k off) ∙ h)
  ]

  opened_bounded : (k : ℕ) (p : Quota) → opened.quotas k ≡ some p → counters_ok p ≡ true
  opened_bounded k p h = elim (ℕ_discrete k q.id) [
    | yes at ↦
        let eq : some q ≡ some p = sym (put_self s.quotas q.id q) ∙ ap opened.quotas (sym at) ∙ h in
        let same : q ≡ p = cc in rw (← same) good
    | no off ↦ v.bounded k p (sym (put_ne s.quotas q.id q k off) ∙ h)
  ]

  opened_indexed : (u k : ℕ) → opened.quota_of u ≡ some k → owner opened.quotas k ≡ some u
  opened_indexed u k h = elim (ℕ_discrete u q.user_id) [
    | yes at ↦
        let named : some q.id ≡ some k = rw (at, ==-self q.user_id) at h in
        let same : q.id ≡ k = cc in rw (← same, put_self s.quotas q.id q, owner) (ap some (sym at))
    | no off ↦
        let before : s.quota_of u ≡ some k = ground arith in
        let named = v.indexed u k before in
        rw (put_ne s.quotas q.id q k (not_owned k u named), owner) named
  ]

  pub opened-Inv : Inv opened
  opened-Inv = record {
    spent_eq = opened_spent;
    locked_eq = opened_locked;
    held_eq = opened_held;
    linked = All-map opened-Linked s.reservations v.linked;
    distinct = v.distinct;
    keyed = opened_keyed;
    bounded = opened_bounded;
    indexed = opened_indexed;
  }
