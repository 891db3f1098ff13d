-- ===== src/Quota/Rules.antt =====
-- Rules for what a transaction leaves behind when it succeeds, one for each statement.
use token_pilot.Base.{
  ℕ, ◌≡◌, refl, Bool, true, false, Option, none, some, ◌∷◌, ◌&&◌, ◌==◌, if◌then◌else◌, any,
  update_where, count_where, Bool-cases, inl, inr, find,
}
use token_pilot.Quota.Types.{Store, Quota, Reservation, Entry}
use token_pilot.Quota.Store.{
  Tx, Result, ok, err, pure, throw, ◌>>=◌, ◌>>◌, throw_if, Error, update_quota, update_row,
  update_reservations, create_entry, create_reservation, put_quota, counters_ok, entry_ok,
  amounts_ok, same_entry, clashes, bound, relation_missing, check_violation, unique_violation,
}
use token_pilot.Quota.Claims.{find_reservation, quota_row}

-- If `m` succeeds from `s`, then `P` holds of its result and of the store that it leaves.
pub record Post {A : Type 0} (P : A → Store → Type 0) (s : Store) (m : Tx A) : Type 0 where
  pub run : (a : A) (t : Store) → m s ≡ ok (a, t) → P a t

module _ {A : Type 0} {P : A → Store → Type 0} {s : Store} where
  pub pure-Post : {a : A} → P a s → Post P s (pure a)
  pure-Post {a} p = record { run = λ b t h. subst_pair b t h }
    where
      subst_pair :
          (b : A) (t : Store) → ◌≡◌ {A = Result (A × Store)} (ok (a, s)) (ok (b, t)) → P b t
      subst_pair b t h =
          let same_a : a ≡ b = cc in let same_s : s ≡ t = cc in rw (← same_a, ← same_s) p

  pub throw-Post : {e : Error} → Post P s (throw e)
  throw-Post {e} = record {
    run = λ a t h. let h' : ◌≡◌ {A = Result (A × Store)} (err e) (ok (a, t)) = h in cc;
  }

  pub throw_if-Post :
      (b : Bool) (e : Error) (k : Tx A) → (b ≡ false → Post P s k) → Post P s (throw_if b e >> k)
  unfolding ◌>>◌ throw_if
  throw_if-Post true e k h = record {
    run = λ a t eq. let eq' : ◌≡◌ {A = Result (A × Store)} (err e) (ok (a, t)) = eq in cc;
  }
  throw_if-Post false e k h = record { run = (h refl).run }

  pub if-Post :
      (b : Bool) {m k : Tx A}
      → (b ≡ true → Post P s m)
      → (b ≡ false → Post P s k)
      → Post P s (if b then m else k)
  if-Post true h1 h2 = h1 refl
  if-Post false h1 h2 = h2 refl

  pub update_reservations-Post :
      (p : Reservation → Bool) (f : Reservation → Reservation) (g : ℕ → Tx A)
      → Post P
          (record s { reservations = update_where p f s.reservations })
          (g (count_where p s.reservations))
      → Post P s (update_reservations p f >>= g)
  unfolding ◌>>=◌ update_reservations
  update_reservations-Post p f g h = record { run = h.run }

  pub find_reservation-Post :
      (p : Reservation → Bool) (g : Option Reservation → Tx A)
      → Post P s (g (find p s.reservations))
      → Post P s (find_reservation p >>= g)
  unfolding ◌>>=◌ find_reservation
  find_reservation-Post p g h = record { run = h.run }

  pub quota_row-Post :
      (k : ℕ) (g : Quota → Tx A)
      → ((q : Quota) → s.quotas k ≡ some q → Post P s (g q))
      → Post P s (quota_row k >>= g)
  unfolding ◌>>=◌ quota_row
  quota_row-Post k g h = record { run = λ a t e. go (s.quotas k) refl a t e }
    where
      go :
          (o : Option Quota)
          → s.quotas k ≡ o
          → (a : A) (t : Store)
          → bound (elim o [ none ↦ err relation_missing | some q ↦ ok (q, s) ]) g ≡ ok (a, t)
          → P a t
      go none eq a t e =
          let e' : ◌≡◌ {A = Result (A × Store)} (err relation_missing) (ok (a, t)) = e in cc
      go (some q) eq a t e = (h q eq).run a t e

  update_row-Post :
      (app lock k : ℕ) (f : Quota → Quota) (q : Quota) (g : ℕ → Tx A)
      → (counters_ok (f q) ≡ true → Post P (put_quota k (f q) s) (g 1))
      → Post P s (g 0)
      → Post P s (update_row app lock f k q >>= g)
  unfolding ◌>>=◌ update_row
  update_row-Post app lock k f q g written kept =
      elim (Bool-cases (q.application_id == app && q.lock_version == lock)) [
        | inr stale ↦ record { run = λ a t e. kept.run a t (rw stale at e) }
        | inl fresh ↦ elim (Bool-cases (counters_ok (f q))) [
          | inl good ↦ record { run = λ a t e. (written good).run a t (rw (fresh, good) at e) }
          | inr bad ↦ record {
            run = λ a t e.
                let e' : ◌≡◌ {A = Result (A × Store)} (err check_violation) (ok (a, t)) =
                  rw (fresh, bad) at e in
                cc;
          }
        ]
      ]

  -- The row that the update finds is the one that was read, and either it is written or nothing is.
  pub update_quota-Post :
      (app k lock : ℕ) (f : Quota → Quota) (q : Quota) (g : ℕ → Tx A)
      → s.quotas k ≡ some q
      → (counters_ok (f q) ≡ true → Post P (put_quota k (f q) s) (g 1))
      → Post P s (g 0)
      → Post P s (update_quota app k lock f >>= g)
  unfolding ◌>>=◌ update_quota
  update_quota-Post app k lock f q g found written kept =
      let rest : Post P s (update_row app lock f k q >>= g) =
        update_row-Post app lock k f q g written kept in
      record { run = λ a t e. rest.run a t (rw (found, update_quota) at e) }

  pub create_entry-Post :
      (e : Entry) (k : Tx A)
      → Post P (record s { ledger = e ∷ s.ledger }) k
      → Post P s (create_entry e >> k)
  unfolding ◌>>◌ create_entry
  create_entry-Post e k h = elim (Bool-cases (any (same_entry e) s.ledger)) [
    | inl taken ↦ record {
      run = λ a t eq.
          let eq' : ◌≡◌ {A = Result (A × Store)} (err unique_violation) (ok (a, t)) =
            rw taken at eq in
          cc;
    }
    | inr fresh ↦ elim (Bool-cases (entry_ok e)) [
      | inl good ↦ record { run = λ a t eq. h.run a t (rw (fresh, good) at eq) }
      | inr bad ↦ record {
        run = λ a t eq.
            let eq' : ◌≡◌ {A = Result (A × Store)} (err check_violation) (ok (a, t)) =
              rw (fresh, bad) at eq in
            cc;
      }
    ]
  ]

  pub create_reservation-Post :
      (r : Reservation) (k : Tx A)
      → (any (clashes r) s.reservations ≡ false
          → Post P (record s { reservations = r ∷ s.reservations }) k)
      → Post P s (create_reservation r >> k)
  unfolding ◌>>◌ create_reservation
  create_reservation-Post r k h = elim (Bool-cases (any (clashes r) s.reservations)) [
    | inl taken ↦ record {
      run = λ a t eq.
          let eq' : ◌≡◌ {A = Result (A × Store)} (err unique_violation) (ok (a, t)) =
            rw taken at eq in
          cc;
    }
    | inr fresh ↦ elim (Bool-cases (amounts_ok r)) [
      | inl good ↦ record { run = λ a t eq. (h fresh).run a t (rw (fresh, good) at eq) }
      | inr bad ↦ record {
        run = λ a t eq.
            let eq' : ◌≡◌ {A = Result (A × Store)} (err check_violation) (ok (a, t)) =
              rw (fresh, bad) at eq in
            cc;
      }
    ]
  ]
