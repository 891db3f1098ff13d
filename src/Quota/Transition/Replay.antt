-- ===== src/Quota/Transition/Replay.antt =====
-- A settlement or a release that is sent twice, and one that comes too late.
use token_pilot.Base.{
  ℕ, ◌≡◌, ◌≢◌, refl, ap, sym, ◌∙◌, Bool, true, false, some, List, [], ◌∷◌, inl, inr, ◌||◌, ◌==◌,
  not, arith, find, update_where, if◌then◌else◌, Bool-cases,
}
use token_pilot.Base.Int.{ℤ, eqb_ℤ, eqb_ℤ_iff, eqb_ℤ-ne}
use token_pilot.Quota.Types.{
  Store, Quota, Reservation, Status, reserved, settled, released, expired, unknown_status,
  is_reserved,
}
use token_pilot.Quota.Store.{
  Result, ok, err, put_self, ◌>>=◌, ◌>>◌, throw_if, conflict, already_settled,
}
use token_pilot.Quota.Claims.{
  Codec, Claims, Transition, lineage_holds, reservation_claims, find_reservation, quota_row,
}
use token_pilot.Quota.Transition.{
  Action, settle, release, open_row, close_reservation, close_quota, is_row, by_status,
  transition_found, transition_body, transition,
}
use token_pilot.Quota.Transition.Safety.{transition-Post}
use token_pilot.Quota.Transition.Written.{closed_store, close-Preserves}
use token_pilot.Quota.Rows.{Preserves}

-- The rest of a call, once it is known what it reads.
module _ (codec : Codec) (app id token : ℕ) (action : Action) (actual : ℤ) (now : ℕ) (s : Store)
    (claims : Claims) (row : Reservation) (q : Quota) (verified : codec.verify token ≡ some claims)
    (matching : (not (claims.reservation_id == id) || not (claims.application_id == app)) ≡ false)
    (at : find (is_row app id) s.reservations ≡ some row) (found : s.quotas row.quota_id ≡ some q)
    (lineage : not (lineage_holds codec row claims token) ≡ false) where
  pub transition-by_status :
      transition codec app id token action actual now s
      ≡ by_status row.status row q action actual now s
  unfolding transition transition_body transition_found ◌>>=◌ ◌>>◌ throw_if find_reservation
      quota_row
  transition-by_status =
      rw (verified, transition, matching, at, transition_found) (rw (found, quota_row) (rw lineage))

module _ (app id : ℕ) (f : Reservation → Reservation) (same : Preserves f) where
  is_row-keeps :
      (b : Bool) (o : Reservation) → is_row app id (if b then f o else o) ≡ is_row app id o
  is_row-keeps true o = rw (same.same_id o, same.same_app o)
  is_row-keeps false o = refl

  -- An update keeps the place of a row in the table.
  pub find-update_where :
      (p : Reservation → Bool) (rs : List Reservation) (row : Reservation)
      → find (is_row app id) rs ≡ some row
      → find (is_row app id) (update_where p f rs) ≡ some (if p row then f row else row)
  find-update_where p [] row at = cc
  find-update_where p (o ∷ rs) row at = elim (Bool-cases (is_row app id o)) [
    | inl hit ↦
        let at' : some o ≡ some row = rw hit at at in
        let eq : o ≡ row = cc in rw (is_row-keeps (p o) o, hit, eq)
    | inr miss ↦ rw (is_row-keeps (p o) o, miss) (find-update_where p rs row (rw miss at at))
  ]

close-lineage :
    (codec : Codec) (a : Action) (actual : ℤ) (now token : ℕ) (claims : Claims) (row : Reservation)
    → lineage_holds codec (close_reservation a actual now row) claims token
      ≡ lineage_holds codec row claims token
unfolding lineage_holds reservation_claims
close-lineage codec settle actual now token claims row = refl
close-lineage codec release actual now token claims row = refl

by_status-later :
    (st : Status) (row : Reservation) (q : Quota) (action : Action) (actual : ℤ) (now later : ℕ)
    (s : Store)
    → is_reserved st ≡ false
    → by_status st row q action actual later s ≡ by_status st row q action actual now s
unfolding by_status
by_status-later reserved row q action actual now later s h = cc
by_status-later settled row q action actual now later s h = refl
by_status-later released row q action actual now later s h = refl
by_status-later expired row q action actual now later s h = refl
by_status-later unknown_status row q action actual now later s h = refl

by_status-other :
    (st : Status) (row : Reservation) (q : Quota) (actual amount : ℤ) (now later : ℕ) (s : Store)
    (r : Transition × Store)
    → is_reserved st ≡ false
    → by_status st row q settle actual now s ≡ ok r
    → amount ≢ actual
    → by_status st row q settle amount later s ≡ err (conflict already_settled)
unfolding by_status
by_status-other reserved row q actual amount now later s r h e ne = cc
by_status-other settled row q actual amount now later s r h e ne =
    elim (Bool-cases (eqb_ℤ row.settled actual)) [
      | inl same ↦
          let eq : row.settled ≡ actual = (eqb_ℤ_iff row.settled actual).0 same in
          rw eq (rw (eqb_ℤ-ne actual amount (λ h. ne (sym h))))
      | inr other ↦
          let e' : ◌≡◌ {A = Result (Transition × Store)} (err (conflict already_settled)) (ok r) =
            rw other at e in
          cc
    ]
by_status-other released row q actual amount now later s r h e ne = cc
by_status-other expired row q actual amount now later s r h e ne = cc
by_status-other unknown_status row q actual amount now later s r h e ne = cc

-- What a second call finds after the writes of the first.
module _ (codec : Codec) (app id token : ℕ) (action : Action) (actual : ℤ) (now : ℕ) (s : Store)
    (claims : Claims) (row : Reservation) (q : Quota) (verified : codec.verify token ≡ some claims)
    (matching : (not (claims.reservation_id == id) || not (claims.application_id == app)) ≡ false)
    (at : find (is_row app id) s.reservations ≡ some row) (found : s.quotas row.quota_id ≡ some q)
    (lineage : not (lineage_holds codec row claims token) ≡ false)
    (is_open : row.status ≡ reserved) where
  after : Store
  after = closed_store s row q action actual now found

  row' : Reservation
  row' = close_reservation action actual now row

  at_after : find (is_row app id) after.reservations ≡ some row'
  unfolding after row'
  at_after =
      let hit : open_row row.application_id row.id row.lock_version row ≡ true = ground arith in
      find-update_where app id _ (close-Preserves action actual now) _ _ row at ∙ rw hit

  pub transition_after :
      (second : Action) (amount : ℤ) (later : ℕ)
      → transition codec app id token second amount later
          (closed_store s row q action actual now found)
        ≡ by_status
            (close_reservation action actual now row).status
            (close_reservation action actual now row)
            (close_quota action actual row q)
            second
            amount
            later
            (closed_store s row q action actual now found)
  unfolding after row'
  transition_after second amount later =
      transition-by_status codec app id token second amount later after claims row'
        (close_quota action actual row q) verified matching at_after
        (same_quota ∙ put_self s.quotas row.quota_id _)
        (rw (close-lineage codec action actual now token claims row) lineage)
    where
      same_quota : after.quotas row'.quota_id ≡ after.quotas row.quota_id
      same_quota = ap after.quotas ((close-Preserves action actual now).same_quota row)

module _ (codec : Codec) (app id token : ℕ) (actual : ℤ) (now later : ℕ) (s s' : Store)
    (r : Transition)
    (success : transition codec app id token settle actual now s ≡ ok (r, s')) where
  -- A settlement that is repeated with the same amount changes nothing and reports the same result.
  pub settle_again : transition codec app id token settle actual later s' ≡ ok (r, s')
  unfolding by_status
  settle_again =
      (transition-Post codec app id token settle actual now s
          (λ u t. transition codec app id token settle actual later t ≡ ok (u, t))
          (λ claims row q verified matching at found lineage shut same.
            transition-by_status codec app id token settle actual later s claims row q verified
              matching at found lineage
            ∙ by_status-later row.status row q settle actual now later s shut
            ∙ same)
          (λ claims row q verified matching at found lineage is_open _.
            transition_after codec app id token settle actual now s claims row q verified matching
              at found lineage is_open settle actual later
            ∙ rw ((eqb_ℤ_iff actual actual).1 refl))).run
        r s' success

  -- A settlement with another amount is refused once one has succeeded.
  pub settle_other :
      (amount : ℤ)
      → amount ≢ actual
      → transition codec app id token settle amount later s' ≡ err (conflict already_settled)
  unfolding by_status
  settle_other amount ne =
      (transition-Post codec app id token settle actual now s
          (λ _ t.
            transition codec app id token settle amount later t ≡ err (conflict already_settled))
          (λ claims row q verified matching at found lineage shut same.
            transition-by_status codec app id token settle amount later s claims row q verified
              matching at found lineage
            ∙ by_status-other row.status row q actual amount now later s _ shut same ne)
          (λ claims row q verified matching at found lineage is_open _.
            transition_after codec app id token settle actual now s claims row q verified matching
              at found lineage is_open settle amount later
            ∙ rw (eqb_ℤ-ne actual amount (λ h. ne (sym h))))).run
        r s' success
