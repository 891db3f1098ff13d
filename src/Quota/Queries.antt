-- ===== src/Quota/Queries.antt =====
-- Rules for the reads of a quota and of a ledger entry, and for a transaction within another one.
use token_pilot.Base.{
  any, ◌∷◌, ℕ, ◌≡◌, refl, sym, ◌∙◌, ap, Option, none, some, ◌&&◌, ◌==◌, if◌then◌else◌, find,
  Bool-cases, inl, inr, arith,
}
use token_pilot.Quota.Types.{Store, Quota, Entry, Key, same_key}
use token_pilot.Quota.Store.{
  create_entry, unique_violation, check_violation, same_entry, entry_ok, Tx, Result, ok, err, bound,
  ◌>>=◌, ◌>>◌,
}
use token_pilot.Quota.Rules.{Post, pure-Post}
use token_pilot.Quota.Balance.{Inv, owner}
use token_pilot.Quota.Settle.{find_quota, find_entry}

-- What `findUnique` returns: the row of the user, which is the row under its own identifier.
pub record IsQuotaOf (s : Store) (app user : ℕ) (q : Quota) : Type 0 where
  pub stored : s.quotas q.id ≡ some q
  pub is_indexed : s.quota_of user ≡ some q.id
  pub of_app : q.application_id ≡ app
  pub of_user : q.user_id ≡ user

module _ {s : Store} (v : Inv s) (app user k : ℕ) (q : Quota) (at : s.quotas k ≡ some q) where
  is_quota_of : s.quota_of user ≡ some k → q.application_id ≡ app → IsQuotaOf s app user q
  is_quota_of index own =
      let same = v.keyed k q at in
      let named : owner s.quotas k ≡ some user = v.indexed user k index in
      record {
        stored = ap s.quotas same ∙ at;
        is_indexed = index ∙ ap some (sym same);
        of_app = own;
        of_user = let h : some q.user_id ≡ some user = rw (at, owner) at named in cc;
      }

module _ {A : Type 0} {P : A → Store → Type 0} {s : Store} where
  pub find_entry-Post :
      (app : ℕ) (key : Key) (g : Option Entry → Tx A)
      → Post P s (g (find (λ e. e.application_id == app && same_key e.key key) s.ledger))
      → Post P s (find_entry app key >>= g)
  unfolding ◌>>=◌ find_entry
  find_entry-Post app key g h = record { run = h.run }

  pub find_quota-Post :
      (app user : ℕ) (g : Option Quota → Tx A)
      → Inv s
      → ((o : Option Quota) → ((q : Quota) → o ≡ some q → IsQuotaOf s app user q) → Post P s (g o))
      → Post P s (find_quota app user >>= g)
  unfolding ◌>>=◌ find_quota
  find_quota-Post app user g v h = record { run = λ a t e. go (s.quota_of user) refl a t e }
    where
      from_quota :
          (k : ℕ) (o : Option Quota)
          → s.quota_of user ≡ some k
          → s.quotas k ≡ o
          → (a : A) (t : Store)
          → bound
              (elim o [
                | none ↦ ok (none, s)
                | some q ↦ ok (if q.application_id == app then some q else none, s)
              ])
              g
            ≡ ok (a, t)
          → P a t
      from_quota k none index eq a t e = (h none (λ q h'. cc)).run a t e
      from_quota k (some q) index eq a t e = elim (Bool-cases (q.application_id == app)) [
        | inl own ↦
            (h (some q) (λ p h'.
                let same : q ≡ p = cc in
                rw (← same) (is_quota_of v app user k q eq index (ground arith)))).run
              a t (rw own at e)
        | inr other ↦ (h none (λ p h'. cc)).run a t (rw other at e)
      ]

      go :
          (o : Option ℕ)
          → s.quota_of user ≡ o
          → (a : A) (t : Store)
          → bound
              (elim o [
                | none ↦ ok (none, s)
                | some k ↦ elim (s.quotas k) [
                  | none ↦ ok (none, s)
                  | some q ↦ ok (if q.application_id == app then some q else none, s)
                ]
              ])
              g
            ≡ ok (a, t)
          → P a t
      go none index a t e = (h none (λ q h'. cc)).run a t e
      go (some k) index a t e = from_quota k (s.quotas k) index refl a t e

-- One transaction after another.
module _ {A B : Type 0} {Q : A → Store → Type 0} {P : B → Store → Type 0} {s : Store} where
  pub bind-Post :
      (m : Tx A) (g : A → Tx B)
      → Post Q s m
      → ((a : A) (t : Store) → Q a t → Post P t (g a))
      → Post P s (m >>= g)
  unfolding ◌>>=◌
  bind-Post m g first rest = record { run = λ b u e. go (m s) refl b u e }
    where
      go : (r : Result (A × Store)) → m s ≡ r → (b : B) (u : Store) → bound r g ≡ ok (b, u) → P b u
      go (err x) eq b u e = let e' : ◌≡◌ {A = Result (B × Store)} (err x) (ok (b, u)) = e in cc
      go (ok (a, t)) eq b u e = (rest a t (first.run a t eq)).run b u e

module _ {B : Type 0} {Q : Store → Type 0} {P : B → Store → Type 0} {s : Store} where
  pub then-Post :
      (m : Tx (Unit {0})) (k : Tx B)
      → Post (λ _ t. Q t) s m
      → ((t : Store) → Q t → Post P t k)
      → Post P s (m >> k)
  unfolding ◌>>◌
  then-Post m k first rest = record { run = λ b u e. go (m s) refl b u e }
    where
      go :
          (r : Result (Unit {0} × Store))
          → m s ≡ r
          → (b : B) (u : Store) → bound r (λ _. k) ≡ ok (b, u)
          → P b u
      go (err x) eq b u e = let e' : ◌≡◌ {A = Result (B × Store)} (err x) (ok (b, u)) = e in cc
      go (ok (a, t)) eq b u e = (rest t (first.run a t eq)).run b u e

module _ {P : Unit {0} → Store → Type 0} {s : Store} where
  pub create_entry_last-Post :
      (e : Entry) → P tt (record s { ledger = e ∷ s.ledger }) → Post P s (create_entry e)
  unfolding create_entry
  create_entry_last-Post e h = elim (Bool-cases (any (same_entry e) s.ledger)) [
    | inl taken ↦ record {
      run = λ a t eq.
          let eq' : ◌≡◌ {A = Result (Unit {0} × Store)} (err unique_violation) (ok (a, t)) =
            rw taken at eq in
          cc;
    }
    | inr fresh ↦ elim (Bool-cases (entry_ok e)) [
      | inl good ↦ record { run = λ a t eq. (pure-Post {P = P} h).run a t (rw (fresh, good) at eq) }
      | inr bad ↦ record {
        run = λ a t eq.
            let eq' : ◌≡◌ {A = Result (Unit {0} × Store)} (err check_violation) (ok (a, t)) =
              rw (fresh, bad) at eq in
            cc;
      }
    ]
  ]
