-- ===== src/Quota/Reserve/Safety.antt =====
-- Reserving keeps the invariant, and a hold that is granted fits into the limit.
use mathlib.Core.Bool.{true≢false}
use token_pilot.Base.{
  find-test, ℕ, ◌+◌, ◌*◌, ◌≡◌, ◌≢◌, refl, sym, ◌∙◌, ap, true, false, Option, some, none, List, [],
  ◌∷◌, ◌==◌, ◌&&◌, ◌||◌, not, arith, any, find, All,
}
use token_pilot.Base.Int.{pos, ◌+ℤ◌, ltb_ℤ, ◌≤ℤ◌, int_laws}
use token_pilot.Quota.Types.{Store, User, Quota, Reservation, PeriodType, is_reserved}
use token_pilot.Quota.Store.{◌>>=◌, ok, put_self, counters_ok, clashes}
use token_pilot.Quota.Claims.{Codec, remaining_aiu, is_operation}
use token_pilot.Quota.Rules.{
  Post, pure-Post, throw-Post, throw_if-Post, if-Post, find_reservation-Post, quota_row-Post,
  update_quota-Post, create_reservation-Post, create_entry-Post,
}
use token_pilot.Quota.Balance.{Inv, owner, tenant, written, written-Inv, held}
use token_pilot.Quota.Rows.{NewOps}
use token_pilot.Quota.Queries.{IsQuotaOf, bind-Post, then-Post, find_quota-Post}
use token_pilot.Quota.Policy.{Policy}
use token_pilot.Quota.Materialize.Safety.{materialize-Post}
use token_pilot.Quota.Rollover.Safety.{rollover-Post}
use token_pilot.Quota.Reserve.{
  Reason, granted, Outcome, Request, new_reservation, hold_quota, hold_entry, signed, hold,
  existing, is_reused, is_foreign, reserve_or_hold, has_ended, reserve_from, find_user,
  reserve_user, reserve_transaction,
}

-- The user's quota after the call holds no more than its limit, what it has consumed included.
abbrev pub Within : ℕ → ℕ → Store → Type 0
Within app user t = (q : Quota) × (IsQuotaOf t app user q) × (q.consumed +ℤ q.reserved ≤ℤ q.limit)

-- What a reservation leaves behind: the invariant, and room for a new hold.
pub record Held (app user : ℕ) (r : Request) (s : Store) (o : Outcome) (t : Store) : Type 0 where
  pub inv : Inv t
  pub fits :
      find (is_operation app user r.operation_id) s.reservations ≡ none
      → o.reason ≡ granted
      → ltb_ℤ (pos 0) r.estimated ≡ true
      → Within app user t

clashes-Distinct :
    (r : Reservation) (rs : List Reservation)
    → any (clashes r) rs ≡ false
    → All (λ o. o.id ≢ r.id) rs
clashes-Distinct r [] h = tt
clashes-Distinct r (o ∷ rs) h = (λ same. ground arith, clashes-Distinct r rs (ground arith))

module _ (codec : Codec) (app user : ℕ) (r : Request) (s : Store) (v : Inv s) (q : Quota)
    (own : IsQuotaOf s app user q) where
  new_linked :
      (s.quota_of user ≡ some q.id)
      × (owner s.quotas q.id ≡ some user)
      × (tenant s.quotas q.id ≡ some app)
  new_linked = (
    own.is_indexed,
    rw (own.stored, owner) (ap some own.of_user),
    rw (own.stored, tenant) (ap some own.of_app),
  )

  hold-Inv :
      (id expires_at : ℕ) (models : List ℕ)
      → any
          (clashes (signed codec app (new_reservation id app user q r models expires_at)))
          s.reservations
        ≡ false
      → counters_ok (hold_quota r.estimated q) ≡ true
      → Inv (
          written s q.id
            (hold_quota r.estimated q)
            (signed codec app (new_reservation id app user q r models expires_at) ∷ s.reservations)
            (hold_entry id app user r.estimated q))
  unfolding held
  hold-Inv id expires_at models fresh good =
      written-Inv s q.id q (hold_quota r.estimated q) _ (hold_entry id app user r.estimated q)
        own.stored refl refl refl refl (omega int_laws) refl good v (λ j ne. grind int_laws)
        (grind int_laws) (new_linked, v.linked)
        (
          clashes-Distinct (signed codec app (new_reservation id app user q r models expires_at))
              s.reservations fresh,
          v.distinct,
        )

  -- The comparison with the remaining AIU, which is never below zero.
  fits-limit :
      ltb_ℤ (remaining_aiu q) r.estimated ≡ false
      → ltb_ℤ (pos 0) r.estimated ≡ true
      → q.consumed +ℤ (q.reserved +ℤ r.estimated) ≤ℤ q.limit
  unfolding remaining_aiu
  fits-limit enough positive = grind int_laws

  hold-Held :
      (id expires_at : ℕ) (models : List ℕ)
      → ltb_ℤ (remaining_aiu q) r.estimated ≡ false
      → Post (Held app user r s) s (hold codec app id user q r models expires_at)
  unfolding hold
  hold-Held id expires_at models enough =
      update_quota-Post _ _ _ _ q _ own.stored
        (λ good. throw_if-Post _ _ _ λ _. create_reservation-Post _ _ λ fresh.
          create_entry-Post _ _ (
            pure-Post (record {
              inv = hold-Inv id expires_at models fresh good;
              fits = λ _ _ positive. (
                hold_quota r.estimated q,
                record {
                  stored = put_self s.quotas q.id (hold_quota r.estimated q);
                  is_indexed = own.is_indexed;
                  of_app = own.of_app;
                  of_user = own.of_user;
                },
                fits-limit enough positive,
              );
            })))
        (throw_if-Post _ _ _ λ h. absurd (true≢false h))

  existing-Post :
      (P : Outcome → Store → Type 0) (row : Reservation) (models : List ℕ)
      → ((o : Outcome) → P o s)
      → Post P s (existing codec app row r models)
  unfolding existing
  existing-Post P row models h =
      if-Post (is_reused codec app row r models) (λ _. throw-Post)
        λ _. quota_row-Post _ _ λ p found.
          if-Post (not (is_reserved row.status)) (λ _. pure-Post (h _))
            λ _. if-Post (is_foreign codec app row) (λ _. throw-Post) (λ _. pure-Post (h _))

  reserve_or_hold-Held :
      (o : Option Reservation) (id expires_at : ℕ) (models : List ℕ)
      → find (is_operation app user r.operation_id) s.reservations ≡ o
      → Post (Held app user r s) s (reserve_or_hold codec app o id user q r models expires_at)
  unfolding reserve_or_hold
  reserve_or_hold-Held (some row) id expires_at models at = existing-Post _ row models λ o. record {
    inv = v;
    fits = λ none_there. let e : none ≡ some row = sym none_there ∙ at in cc;
  }
  reserve_or_hold-Held none id expires_at models at =
      if-Post (ltb_ℤ (remaining_aiu q) r.estimated)
        (λ _.
          pure-Post (record {
            inv = v;
            fits = λ _ is. let e : Reason.quota_exhausted ≡ granted = is in cc;
          }))
        (hold-Held id expires_at models)

module _ (calendar : PeriodType → ℕ → ℕ × ℕ) (codec : Codec) (app : ℕ) (r : Request) (id : ℕ)
    (models : List ℕ) (now ttl_seconds : ℕ) where
  unreserved :
      (user : ℕ) (s : Store) (o : Outcome) → Inv s → (o.reason ≢ granted) → Held app user r s o s
  unreserved user s o v other = record { inv = v; fits = λ _ is. absurd (other is) }

  -- An operation that is new before the quota is renewed is new afterwards.
  through :
      (user : ℕ) (s t : Store) (o : Outcome) (u : Store)
      → NewOps s t
      → Held app user r t o u
      → Held app user r s o u
  through user s t o u ops held = record {
    inv = held.inv;
    fits = λ new. held.fits (ops.absent app user r.operation_id new);
  }

  reserve_from-Held :
      (o : Option Quota) (user : ℕ) (s : Store)
      → Inv s
      → ((q : Quota) → o ≡ some q → IsQuotaOf s app user q)
      → Post
          (Held app user r s)
          s
          (reserve_from codec app calendar o id user r models now ttl_seconds)
  unfolding reserve_from
  reserve_from-Held none user s v own = pure-Post (unreserved user s _ v (λ h. cc))
  reserve_from-Held (some q) user s v own =
      if-Post (not q.enabled || not q.hard_limit) (λ _. pure-Post (unreserved user s _ v (λ h. cc)))
        λ _.
          if-Post (has_ended codec app now q) (λ _. pure-Post (unreserved user s _ v (λ h. cc)))
            λ _. bind-Post _ _ (rollover-Post s v app user q (own q refl) calendar now) λ p t ready.
              find_reservation-Post _ _ (record {
                run = λ o u e. through user s t o u ready.ops (
                    (reserve_or_hold-Held codec app user r t ready.inv p ready.quota _ id
                        (now + ttl_seconds * 1000) models refl).run
                      o u e);
              })

  reserve_user-Held :
      (o : Option User) (user : ℕ) (s : Store)
      → Inv s
      → ((u : User) → o ≡ some u → u.id ≡ user)
      → Post (Held app user r s) s (reserve_user codec app calendar o id r models now ttl_seconds)
  unfolding reserve_user
  reserve_user-Held none user s v own = throw-Post
  reserve_user-Held (some u) user s v own =
      let same = own u refl in
      find_quota-Post _ _ _ v λ o quota.
        if-Post u.blocked (λ _. pure-Post (unreserved user s _ v (λ h. cc)))
          λ _. record { run = λ a t e. rw same at ((reserve_from-Held o u.id s v quota).run a t e) }

  find_user-Held :
      (user : ℕ) (s : Store)
      → Inv s
      → Post (Held app user r s) s (
          find_user codec app user >>= λ o.
          reserve_user codec app calendar o id r models now ttl_seconds)
  unfolding ◌>>=◌ find_user
  find_user-Held user s v = record {
    run = λ a t e.
        (reserve_user-Held (find (λ u. u.application_id == app && u.id == user) s.users) user s v
            (λ u at.
              let hit = find-test (λ u. u.application_id == app && u.id == user) s.users u at in
              ground arith)).run
          a t e;
  }

  transaction-Held :
      (policies : List Policy) (user fresh uuid : ℕ) (s : Store)
      → Inv s
      → Post (Held app user r s) s (
          reserve_transaction codec app calendar policies user fresh id uuid r models now
            ttl_seconds)
  unfolding reserve_transaction
  transaction-Held policies user fresh uuid s v =
      then-Post _ _ (materialize-Post calendar s v app user fresh uuid now policies) λ t applied.
        record {
          run =
              λ o u e. through user s t o u applied.1 ((find_user-Held user t applied.0).run o u e);
        }

  module _ (policies : List Policy) (user fresh uuid : ℕ) (s t : Store) (o : Outcome)
      (success : reserve_transaction codec app calendar policies user fresh id uuid r models now
          ttl_seconds s
        ≡ ok (o, t)) where
    -- A reservation that succeeds, whether it grants a hold or not, keeps the counters of every quota
    -- equal to the sums of its ledger and to what its open reservations hold. Applying the rule,
    -- renewing the period and holding the amount are parts of it.
    pub reserve-Inv : Inv s → Inv t
    reserve-Inv v = ((transaction-Held policies user fresh uuid s v).run o t success).inv

    -- When a new operation is granted a positive amount, the user has a quota afterwards whose consumed
    -- and reserved AIU together are within its limit.
    pub reserve-Within :
        Inv s
        → find (is_operation app user r.operation_id) s.reservations ≡ none
        → o.reason ≡ granted
        → ltb_ℤ (pos 0) r.estimated ≡ true
        → Within app user t
    reserve-Within v = ((transaction-Held policies user fresh uuid s v).run o t success).fits
