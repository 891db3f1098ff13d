-- ===== src/Quota/Transition/Safety.antt =====
-- Settling and releasing: the invariant, what is charged, and calls that are made twice.
use token_pilot.Base.{
  ℕ, ◌≡◌, ◌≢◌, refl, true, false, Option, none, some, ◌⊎◌, inl, inr, ◌||◌, ◌==◌, not, arith, find,
  if◌then◌else◌,
}
use token_pilot.Base.Int.{ℤ, ◌+ℤ◌, ◌-ℤ◌, eqb_ℤ}
use token_pilot.Quota.Types.{
  Store, Quota, Reservation, Status, reserved, settled, released, expired, unknown_status,
  is_reserved,
}
use token_pilot.Quota.Store.{
  counters_ok, throw, conflict, token_invalid, token_mismatch, ok, put_self, put_ne,
}
use token_pilot.Quota.Rules.{
  Post, pure-Post, throw-Post, throw_if-Post, if-Post, find_reservation-Post, quota_row-Post,
}
use token_pilot.Quota.Balance.{Inv, consumed_of, reserved_of}
use token_pilot.Quota.Claims.{Codec, Claims, Transition, transition_result, lineage_holds}
use token_pilot.Quota.Transition.{
  Action, is_settle, charged, close_reservation, close_quota, is_row, by_status, transition_found,
  transition_body, transition,
}
use token_pilot.Quota.Transition.Written.{closed_store, close_row-Post, closed-Inv}

-- Every call that succeeds has read one row and its quota, and either leaves the store alone or
-- makes the writes that close the row.
module _ (codec : Codec) (app id token : ℕ) (action : Action) (actual : ℤ) (now : ℕ) (s : Store)
    (P : Transition → Store → Type 0) where
  abbrev Kept : Type 0
  Kept =
      (claims : Claims) (row : Reservation) (q : Quota)
      → codec.verify token ≡ some claims
      → (not (claims.reservation_id == id) || not (claims.application_id == app)) ≡ false
      → find (is_row app id) s.reservations ≡ some row
      → s.quotas row.quota_id ≡ some q
      → not (lineage_holds codec row claims token) ≡ false
      → is_reserved row.status ≡ false
      → by_status row.status row q action actual now s ≡ ok (transition_result row q, s)
      → P (transition_result row q) s

  abbrev Closed : Type 0
  Closed =
      (claims : Claims) (row : Reservation) (q : Quota)
      → codec.verify token ≡ some claims
      → (not (claims.reservation_id == id) || not (claims.application_id == app)) ≡ false
      → find (is_row app id) s.reservations ≡ some row
      → (found : s.quotas row.quota_id ≡ some q)
      → not (lineage_holds codec row claims token) ≡ false
      → row.status ≡ reserved
      → counters_ok (close_quota action actual row q) ≡ true
      → P
          (transition_result (close_reservation action actual now row)
            (close_quota action actual row q))
          (closed_store s row q action actual now found)

  by_status-Post :
      (st : Status) (row : Reservation) (q : Quota)
      → s.quotas row.quota_id ≡ some q
      → (is_reserved st ≡ false
          → by_status st row q action actual now s ≡ ok (transition_result row q, s)
          → P (transition_result row q) s)
      → (found : s.quotas row.quota_id ≡ some q)
      → (st ≡ reserved
          → counters_ok (close_quota action actual row q) ≡ true
          → P
              (transition_result
                (close_reservation action actual now row)
                (close_quota action actual row q))
              (closed_store s row q action actual now found))
      → Post P s (by_status st row q action actual now)
  unfolding by_status
  by_status-Post settled row q at kept found closed =
      if-Post (not (is_settle action) || not (eqb_ℤ row.settled actual)) (λ _. throw-Post)
        (λ e. pure-Post (kept refl (rw e)))
  by_status-Post reserved row q at kept found closed =
      close_row-Post s row q action actual now found P (closed refl)
  by_status-Post released row q at kept found closed =
      if-Post (is_settle action) (λ _. throw-Post) (λ e. pure-Post (kept refl (rw e)))
  by_status-Post expired row q at kept found closed =
      if-Post (is_settle action) (λ _. throw-Post) (λ e. pure-Post (kept refl (rw e)))
  by_status-Post unknown_status row q at kept found closed =
      if-Post (is_settle action) (λ _. throw-Post) (λ e. pure-Post (kept refl (rw e)))

  found-Post :
      (o : Option Reservation) (claims : Claims)
      → find (is_row app id) s.reservations ≡ o
      → codec.verify token ≡ some claims
      → (not (claims.reservation_id == id) || not (claims.application_id == app)) ≡ false
      → Kept
      → Closed
      → Post P s (transition_found codec app o claims token action actual now)
  unfolding transition_found
  found-Post none claims at verified matching kept closed = throw-Post
  found-Post (some row) claims at verified matching kept closed = quota_row-Post _ _ λ q found.
      throw_if-Post _ _ _ λ lineage.
        by_status-Post row.status row q found (kept claims row q verified matching at found lineage)
          found (closed claims row q verified matching at found lineage)

  pub transition-Post : Kept → Closed → Post P s (transition codec app id token action actual now)
  unfolding transition transition_body
  transition-Post kept closed = go (codec.verify token) refl
    where
      go :
          (o : Option Claims)
          → codec.verify token ≡ o
          → Post P s (elim o [
            | none ↦ throw (conflict token_invalid)
            | some claims ↦
                if not (claims.reservation_id == id) || not (claims.application_id == app)
                then throw (conflict token_mismatch)
                else transition_body codec app id claims token action actual now
          ])
      go none e = throw-Post
      go (some claims) e =
          if-Post _ (λ _. throw-Post)
            (λ matching.
              find_reservation-Post _ _ (found-Post _ claims refl e matching kept closed))

-- What a call that leads from `s` to `s'` has done to the counters, by the status of its row.
abbrev pub Effect : ℕ → ℕ → Action → ℤ → Store → Store → Reservation → Type 0
Effect app id action actual s s' row =
    (find (is_row app id) s.reservations ≡ some row)
    × (((is_reserved row.status ≡ false) × (s' ≡ s))
        ⊎ ((row.status ≡ reserved)
            × (consumed_of s'.quotas row.quota_id
                ≡ consumed_of s.quotas row.quota_id +ℤ charged action actual)
            × (reserved_of s'.quotas row.quota_id
                ≡ reserved_of s.quotas row.quota_id -ℤ row.reserved)
            × ((j : ℕ) → j ≢ row.quota_id → s'.quotas j ≡ s.quotas j)))

module _ (codec : Codec) (app id token : ℕ) (action : Action) (actual : ℤ) (now : ℕ) (s s' : Store)
    (r : Transition)
    (success : transition codec app id token action actual now s ≡ ok (r, s')) where
  -- A settlement or a release that succeeds keeps the counters of every quota equal to the sums of
  -- its ledger, and its reserved counter equal to what its open reservations hold.
  pub transition-Inv : Inv s → Inv s'
  transition-Inv v =
      (transition-Post codec app id token action actual now s (λ _ t. Inv t)
          (λ _ _ _ _ _ _ _ _ _ _. v)
          (λ _ row q _ _ at found _ is_open good.
            closed-Inv s row q action actual now found (is_row app id) good v at (rw is_open))).run
        r s' success

  -- A call that succeeds on an open reservation moves its amount out of the reserved counter of its
  -- quota, charges the consumed counter with the settled amount (nothing for a release), and leaves
  -- the other quotas alone; on a closed reservation it changes nothing at all.
  pub transition-Effect : (row : Reservation) × Effect app id action actual s s' row
  transition-Effect =
      (transition-Post codec app id token action actual now s
          (λ _ t. (row : Reservation) × Effect app id action actual s t row)
          (λ _ row _ _ _ at _ _ shut _. (row, (at, inl (shut, refl))))
          (λ _ row q _ _ at found _ is_open good.
            let q' = close_quota action actual row q in
            let self = put_self s.quotas row.quota_id q' in
            (
              row,
              (
                at,
                inr (
                  is_open,
                  ground (arith, self),
                  ground (arith, self),
                  put_ne s.quotas row.quota_id q',
                ),
              ),
            ))).run
        r s' success
