-- ===== src/Quota/Rows.antt =====
-- How an update of the reservation table changes what the open reservations hold.
use token_pilot.Base.{
  ℕ, ◌≡◌, ◌≢◌, refl, sym, Bool, true, false, some, List, [], ◌∷◌, if◌then◌else◌, All, find,
  update_where, Bool-cases, inl, inr, Option, none,
}
use token_pilot.Base.Int.{ℤ, pos, ◌+ℤ◌, +ℤ_under, int_laws}
use token_pilot.Quota.Types.{Store, Reservation, is_reserved}
use token_pilot.Quota.Claims.{is_operation}
use token_pilot.Quota.Balance.{counts_for, held, Linked, Distinct}

abbrev pub contribution : ℕ → Reservation → ℤ
contribution k r = if counts_for k r then r.reserved else pos 0

All-find :
    (P : Reservation → Type 0) (p : Reservation → Bool) (rs : List Reservation) (r : Reservation)
    → All P rs
    → find p rs ≡ some r
    → P r
All-find P p [] r h e = cc
All-find P p (o ∷ rs) r h e = elim (Bool-cases (p o)) [
  | inl hit ↦ let e' : some o ≡ some r = rw hit at e in let same : o ≡ r = cc in rw same at (h.0)
  | inr miss ↦ All-find P p rs r h.1 (rw miss at e)
]

-- What an update may not touch.
pub record Preserves (f : Reservation → Reservation) : Type 0 where
  pub same_id : (o : Reservation) → (f o).id ≡ o.id
  pub same_user : (o : Reservation) → (f o).user_id ≡ o.user_id
  pub same_quota : (o : Reservation) → (f o).quota_id ≡ o.quota_id
  pub same_app : (o : Reservation) → (f o).application_id ≡ o.application_id

module _ (p : Reservation → Bool) (f : Reservation → Reservation) (same : Preserves f) where
  pub update_where-Linked :
      (index user app : ℕ → Option ℕ) (rs : List Reservation)
      → All (Linked index user app) rs
      → All (Linked index user app) (update_where p f rs)
  update_where-Linked index user app [] h = tt
  update_where-Linked index user app (o ∷ rs) h = (
    elim (Bool-cases (p o)) [
      | inl hit ↦ rw (hit, same.same_user o, same.same_quota o, same.same_app o) h.0
      | inr miss ↦ rw miss h.0
    ],
    update_where-Linked index user app rs h.1,
  )

  update_where-All-ne :
      (k : ℕ) (rs : List Reservation)
      → All (λ o. o.id ≢ k) rs
      → All (λ o. o.id ≢ k) (update_where p f rs)
  update_where-All-ne k [] h = tt
  update_where-All-ne k (o ∷ rs) h = (
    elim (Bool-cases (p o)) [ inl hit ↦ rw (hit, same.same_id o) h.0 | inr miss ↦ rw miss h.0 ],
    update_where-All-ne k rs h.1,
  )

  pub update_where-Distinct : (rs : List Reservation) → Distinct rs → Distinct (update_where p f rs)
  update_where-Distinct [] h = tt
  update_where-Distinct (o ∷ rs) h = elim (Bool-cases (p o)) [
    | inl hit ↦
        rw (hit, same.same_id o) (update_where-All-ne o.id rs h.0, update_where-Distinct rs h.1)
    | inr miss ↦ rw miss (update_where-All-ne o.id rs h.0, update_where-Distinct rs h.1)
  ]

  -- No row is selected.
  update_where-none :
      (k : ℕ) (rs : List Reservation)
      → ((o : Reservation) → o.id ≢ k → p o ≡ false)
      → All (λ o. o.id ≢ k) rs
      → update_where p f rs ≡ rs
  update_where-none k [] out h = refl
  update_where-none k (o ∷ rs) out h = rw (out o h.0, update_where-none k rs out h.1)

  -- One row is selected, and gives up its contribution for that of its new value.
  pub held-update_one :
      (j : ℕ) (q : Reservation → Bool) (rs : List Reservation) (r : Reservation)
      → Distinct rs
      → find q rs ≡ some r
      → p r ≡ true
      → ((o : Reservation) → o.id ≢ r.id → p o ≡ false)
      → held j (update_where p f rs) +ℤ contribution j r ≡ held j rs +ℤ contribution j (f r)
  unfolding held
  held-update_one j q [] r d e here out = cc
  held-update_one j q (o ∷ rs) r d e here out = elim (Bool-cases (q o)) [
    | inl hit ↦
        let e' : some o ≡ some r = rw hit at e in
        let eq : o ≡ r = cc in
        let d' : All (λ x. x.id ≢ r.id) rs = rw eq at (d.0) in
        rw (eq, here, update_where-none r.id rs out d') (omega int_laws)
    | inr miss ↦
        let e' : find q rs ≡ some r = rw miss at e in
        let ne : r.id ≢ o.id = All-find (λ x. x.id ≢ o.id) q rs r d.0 e' in
        let rest = held-update_one j q rs r d.1 e' here out in
        rw (out o (λ h. ne (sym h)))
          (+ℤ_under (contribution j o) _ (contribution j r) (held j rs) (contribution j (f r)) rest)
  ]

  -- Every open reservation of quota `k` is selected, and closed; no other quota's is.
  pub held-update_every :
      (k : ℕ) (rs : List Reservation)
      → ((o : Reservation) → is_reserved (f o).status ≡ false)
      → All (λ o. (counts_for k o ≡ true → p o ≡ true) × (p o ≡ true → o.quota_id ≡ k)) rs
      → (held k (update_where p f rs) ≡ pos 0)
        × ((j : ℕ) → j ≢ k → held j (update_where p f rs) ≡ held j rs)
  unfolding held
  held-update_every k [] closes h = (refl, λ j ne. refl)
  held-update_every k (o ∷ rs) closes h =
      let (rest, others) = held-update_every k rs closes h.1 in
      elim (Bool-cases (p o)) [
        | inl hit ↦
            (grind (int_laws, closes o), λ j ne. grind (int_laws, closes o, others j ne, h.0.1 hit))
        | inr miss ↦ (grind (int_laws, h.0.0), λ j ne. grind (int_laws, others j ne))
      ]

-- No operation is reserved afterwards that was not before.
pub record NewOps (s t : Store) : Type 0 where
  pub absent :
      (app user operation : ℕ)
      → find (is_operation app user operation) s.reservations ≡ none
      → find (is_operation app user operation) t.reservations ≡ none

pub find-update_where-none :
    (g p : Reservation → Bool) (f : Reservation → Reservation)
    → ((o : Reservation) → g (f o) ≡ g o)
    → (rs : List Reservation) → find g rs ≡ none
    → find g (update_where p f rs) ≡ none
find-update_where-none g p f same [] h = refl
find-update_where-none g p f same (o ∷ rs) h = elim (Bool-cases (g o)) [
  | inl hit ↦ let h' : some o ≡ none = rw hit at h in cc
  | inr miss ↦ elim (Bool-cases (p o)) [
    | inl chosen ↦ rw (chosen, same o, miss) (find-update_where-none g p f same rs (rw miss at h))
    | inr left ↦ rw (left, miss) (find-update_where-none g p f same rs (rw miss at h))
  ]
]
