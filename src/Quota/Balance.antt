-- ===== src/Quota/Balance.antt =====
-- What the ledger and the reservation table say about a quota's counters, and the invariant that
-- ties them to the counters.
use mathlib.Core.Path.{fun_ext}
use token_pilot.Base.{
  sym, ap, ◌∙◌, ℕ, ◌≡◌, ◌≢◌, Bool, true, Option, none, some, List, [], ◌∷◌, ◌&&◌, ◌==◌, arith,
  if◌then◌else◌, All,
}
use token_pilot.Base.Int.{ℤ, pos, ◌+ℤ◌, int_laws}
use token_pilot.Quota.Types.{Store, Quota, Reservation, Entry, is_reserved}
use token_pilot.Quota.Store.{put, put_self, put_ne, counters_ok}
use native.Mathlib.Decide.{ℕ_discrete}

-- The AIU that the open reservations of a quota hold.
abbrev pub counts_for : ℕ → Reservation → Bool
counts_for k r = is_reserved r.status && r.quota_id == k

unfoldable pub held : ℕ → List Reservation → ℤ
held k [] = pos 0
held k (r ∷ rs) = (if counts_for k r then r.reserved else pos 0) +ℤ held k rs

-- The sums of the changes that the ledger records for a quota.
unfoldable pub spent : ℕ → List Entry → ℤ
spent k [] = pos 0
spent k (e ∷ es) = (if e.quota_id == k then e.consumed_delta else pos 0) +ℤ spent k es

unfoldable pub locked : ℕ → List Entry → ℤ
locked k [] = pos 0
locked k (e ∷ es) = (if e.quota_id == k then e.reserved_delta else pos 0) +ℤ locked k es

module _ (quotas : ℕ → Option Quota) where
  -- The counters of a quota; one that does not exist has spent and reserved nothing.
  abbrev pub consumed_of : ℕ → ℤ
  consumed_of k = elim (quotas k) [ none ↦ pos 0 | some q ↦ q.consumed ]

  abbrev pub reserved_of : ℕ → ℤ
  reserved_of k = elim (quotas k) [ none ↦ pos 0 | some q ↦ q.reserved ]

  abbrev pub owner : ℕ → Option ℕ
  owner k = elim (quotas k) [ none ↦ none | some q ↦ some q.user_id ]

  abbrev pub tenant : ℕ → Option ℕ
  tenant k = elim (quotas k) [ none ↦ none | some q ↦ some q.application_id ]

-- A reservation is of its user's one quota, in its own application.
abbrev pub Linked : (ℕ → Option ℕ) → (ℕ → Option ℕ) → (ℕ → Option ℕ) → Reservation → Type 0
Linked index user app r =
    (index r.user_id ≡ some r.quota_id)
    × (user r.quota_id ≡ some r.user_id)
    × (app r.quota_id ≡ some r.application_id)

abbrev pub Distinct : List Reservation → Type 0
Distinct [] = Unit
Distinct (r ∷ rs) = All (λ o. o.id ≢ r.id) rs × Distinct rs

pub record Inv (s : Store) : Type 0 where
  pub spent_eq : (k : ℕ) → consumed_of s.quotas k ≡ spent k s.ledger
  pub locked_eq : (k : ℕ) → reserved_of s.quotas k ≡ locked k s.ledger
  pub held_eq : (k : ℕ) → reserved_of s.quotas k ≡ held k s.reservations
  pub linked : All (Linked s.quota_of (owner s.quotas) (tenant s.quotas)) s.reservations
  pub distinct : Distinct s.reservations
  pub keyed : (k : ℕ) (q : Quota) → s.quotas k ≡ some q → q.id ≡ k
  pub bounded : (k : ℕ) (q : Quota) → s.quotas k ≡ some q → counters_ok q ≡ true
  pub indexed : (u k : ℕ) → s.quota_of u ≡ some k → owner s.quotas k ≡ some u

-- A write to one quota, to the reservations, and to the ledger.
abbrev pub written : Store → ℕ → Quota → List Reservation → Entry → Store
written s k q rs e = record s {
  quotas = put s.quotas k q;
  reservations = rs;
  ledger = e ∷ s.ledger;
}

-- The rule for a write: one quota changes its counters, the ledger records the changes, and the
-- open reservations of that quota change their sum by as much.
module _ (s : Store) (k : ℕ) (q q' : Quota) (rs : List Reservation) (e : Entry)
    (found : s.quotas k ≡ some q) (same_id : q'.id ≡ q.id) (same_user : q'.user_id ≡ q.user_id)
    (same_app : q'.application_id ≡ q.application_id) (for_quota : e.quota_id ≡ k)
    (spends : q'.consumed ≡ q.consumed +ℤ e.consumed_delta)
    (locks : q'.reserved ≡ q.reserved +ℤ e.reserved_delta) where
  owner_same : owner (put s.quotas k q') ≡ owner s.quotas
  owner_same = fun_ext λ j. elim (ℕ_discrete j k) [
    | yes at ↦ ground (arith, put_self s.quotas k q')
    | no off ↦ ground (arith, put_ne s.quotas k q' j off)
  ]

  tenant_same : tenant (put s.quotas k q') ≡ tenant s.quotas
  tenant_same = fun_ext λ j. elim (ℕ_discrete j k) [
    | yes at ↦ ground (arith, put_self s.quotas k q')
    | no off ↦ ground (arith, put_ne s.quotas k q' j off)
  ]

  written_spent :
      (j : ℕ)
      → consumed_of s.quotas j ≡ spent j s.ledger
      → consumed_of (put s.quotas k q') j ≡ spent j (e ∷ s.ledger)
  unfolding spent
  written_spent j h = elim (ℕ_discrete j k) [
    | yes at ↦ grind (int_laws, put_self s.quotas k q')
    | no off ↦ grind (int_laws, put_ne s.quotas k q' j off)
  ]

  written_locked :
      (j : ℕ)
      → reserved_of s.quotas j ≡ locked j s.ledger
      → reserved_of (put s.quotas k q') j ≡ locked j (e ∷ s.ledger)
  unfolding locked
  written_locked j h = elim (ℕ_discrete j k) [
    | yes at ↦ grind (int_laws, put_self s.quotas k q')
    | no off ↦ grind (int_laws, put_ne s.quotas k q' j off)
  ]

  pub written-Inv :
      counters_ok q' ≡ true
      → Inv s
      → ((j : ℕ) → j ≢ k → held j rs ≡ held j s.reservations)
      → held k rs ≡ held k s.reservations +ℤ e.reserved_delta
      → All (Linked s.quota_of (owner s.quotas) (tenant s.quotas)) rs
      → Distinct rs
      → Inv (written s k q' rs e)
  written-Inv good v others here l d = record {
    spent_eq = λ j. written_spent j (v.spent_eq j);
    locked_eq = λ j. written_locked j (v.locked_eq j);
    held_eq = λ j. elim (ℕ_discrete j k) [
      | yes at ↦ let before = v.held_eq k in grind (int_laws, put_self s.quotas k q', before, here)
      | no off ↦ grind (int_laws, put_ne s.quotas k q' j off, v.held_eq j, others j off)
    ];
    linked = rw (owner_same, tenant_same) l;
    distinct = d;
    keyed = λ j. elim (ℕ_discrete j k) [
      | yes at ↦ λ p h.
          let eq : some q' ≡ some p =
            sym (put_self s.quotas k q') ∙ ap (put s.quotas k q') (sym at) ∙ h in
          let same : q' ≡ p = cc in rw (← same) (same_id ∙ v.keyed k q found ∙ sym at)
      | no off ↦ λ p h. v.keyed j p (sym (put_ne s.quotas k q' j off) ∙ h)
    ];
    bounded = λ j. elim (ℕ_discrete j k) [
      | yes at ↦ λ p h.
          let eq : some q' ≡ some p =
            sym (put_self s.quotas k q') ∙ ap (put s.quotas k q') (sym at) ∙ h in
          let same : q' ≡ p = cc in rw (← same) good
      | no off ↦ λ p h. v.bounded j p (sym (put_ne s.quotas k q' j off) ∙ h)
    ];
    indexed = λ u j h. rw owner_same (v.indexed u j h);
  }
