-- ===== src/Quota/Materialize/Writes.antt =====
-- Rules for the two writes to the quota table.
use token_pilot.Base.{
  ℕ, ◌≡◌, refl, true, Option, some, none, ◌==◌, inl, inr, if◌then◌else◌, Bool-cases,
}
use token_pilot.Quota.Types.{Store, Quota}
use token_pilot.Quota.Store.{
  Tx, Result, ok, err, bound, put_quota, counters_ok, ◌>>◌, check_violation, unique_violation,
}
use token_pilot.Quota.Rules.{Post}
use token_pilot.Quota.Materialize.{set_quota, create_quota}

-- The rules for the two writes to the quota table.
module _ {B : Type 0} {P : B → Store → Type 0} {s : Store} where
  pub set_quota-Post :
      (k : ℕ) (q : Quota) (m : Tx B)
      → (counters_ok q ≡ true → Post P (put_quota k q s) m)
      → Post P s (set_quota k q >> m)
  unfolding ◌>>◌ set_quota
  set_quota-Post k q m h = elim (Bool-cases (counters_ok q)) [
    | inl good ↦ record { run = λ a t e. (h good).run a t (rw good at e) }
    | inr bad ↦ record {
      run = λ a t e.
          let e' : ◌≡◌ {A = Result (B × Store)} (err check_violation) (ok (a, t)) = rw bad at e in
          cc;
    }
  ]

abbrev pub with_quota : Quota → Store → Store
with_quota q s = record (put_quota q.id q s) {
  quota_of = λ u. if u == q.user_id then some q.id else s.quota_of u;
}

abbrev tried : Quota → Store → Option Quota → Option ℕ → Result (Unit {0} × Store)
tried q s row index = elim row [
  | some _ ↦ err unique_violation
  | none ↦ elim index [
    | some _ ↦ err unique_violation
    | none ↦ if counters_ok q then ok (tt, with_quota q s) else err check_violation
  ]
]

module _ {B : Type 0} {P : B → Store → Type 0} {s : Store} where
  pub create_quota-Post :
      (q : Quota) (m : Tx B)
      → (s.quotas q.id ≡ none
          → s.quota_of q.user_id ≡ none
          → counters_ok q ≡ true
          → Post P (with_quota q s) m)
      → Post P s (create_quota q >> m)
  unfolding ◌>>◌ create_quota
  create_quota-Post q m h = record {
    run = λ a t e. go (s.quotas q.id) (s.quota_of q.user_id) refl refl a t e;
  }
    where
      go :
          (row : Option Quota) (index : Option ℕ)
          → s.quotas q.id ≡ row
          → s.quota_of q.user_id ≡ index
          → (a : B) (t : Store) → bound (tried q s row index) (λ _. m) ≡ ok (a, t)
          → P a t
      go (some x) index hr hi a t e =
          let e' : ◌≡◌ {A = Result (B × Store)} (err unique_violation) (ok (a, t)) = e in cc
      go none (some x) hr hi a t e =
          let e' : ◌≡◌ {A = Result (B × Store)} (err unique_violation) (ok (a, t)) = e in cc
      go none none hr hi a t e = elim (Bool-cases (counters_ok q)) [
        | inl good ↦ (h hr hi good).run a t (rw good at e)
        | inr bad ↦
            let e' : ◌≡◌ {A = Result (B × Store)} (err check_violation) (ok (a, t)) = rw bad at e in
            cc
      ]
