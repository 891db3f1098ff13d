-- ===== src/Quota/Store.antt =====
-- Transactions over the quota tables: state with failure, and the statements of the database client
-- with the checks of packages/db/prisma/migrations (counters and unique keys).
use token_pilot.Base.{
  ℕ, Bool, true, false, Option, none, some, ◌∷◌, ◌&&◌, ◌||◌, ◌==◌, if◌then◌else◌, update_where,
  count_where, any, ◌≡◌, ◌≢◌, arith,
}
use token_pilot.Base.Int.{ℤ, pos, leb_ℤ, ◌≤ℤ◌}
use token_pilot.Quota.Types.{Store, Quota, Reservation, Entry, same_key}

pub data Message : Type 0 where
  user_missing reservation_missing model_missing : Message
  token_mismatch lineage_invalid already_settled already_closed : Message
  operation_reused lifetime_expired candidates_foreign balance_inconsistent : Message
  token_invalid reservation_invalid fixed_window_invalid : Message

pub data Error : Type 0 where
  -- Prisma's P2034, which the callers retry.
  write_conflict : Error
  -- P2002 and the check constraints, which no caller retries.
  unique_violation check_violation : Error
  -- A required relation is absent, which the foreign keys exclude.
  relation_missing : Error
  -- The exceptions of the code, with a number for the message.
  not_found conflict type_error : Message → Error

pub data Result {ℓ} (A : Type ℓ) : Type ℓ where
  ok : A → Result A
  err : Error → Result A

-- A transaction that fails is rolled back: an error carries no store.
abbrev pub Tx : Type 0 → Type 0
Tx A = Store → Result (A × Store)

abbrev pub pure : {A : Type 0} → A → Tx A
pure a s = ok (a, s)

abbrev pub throw : {A : Type 0} → Error → Tx A
throw e s = err e

abbrev pub bound : {A B : Type 0} → Result (A × Store) → (A → Tx B) → Result (B × Store)
bound (err e) f = err e
bound (ok (a, s)) f = f a s

infixl 5 ◌>>=◌ ◌>>◌
unfoldable pub ◌>>=◌ : {A B : Type 0} → Tx A → (A → Tx B) → Tx B
◌>>=◌ m f s = bound (m s) f

unfoldable pub ◌>>◌ : {B : Type 0} → Tx (Unit {0}) → Tx B → Tx B
◌>>◌ m k s = bound (m s) (λ _. k)

unfoldable pub throw_if : Bool → Error → Tx (Unit {0})
throw_if true e = throw e
throw_if false e = pure tt

abbrev pub get : Tx Store
get s = ok (s, s)

-- A BIGINT that a check constraint keeps from falling below zero.
abbrev pub bigint_max : ℤ
bigint_max = pos 9223372036854775807

abbrev pub in_range : ℤ → Bool
in_range z = leb_ℤ (pos 0) z && leb_ℤ z bigint_max

pub in_range_nonneg : (z : ℤ) → in_range z ≡ true → pos 0 ≤ℤ z
in_range_nonneg z h = ground arith

unfoldable pub counters_ok : Quota → Bool
counters_ok q = in_range q.limit && (in_range q.consumed && in_range q.reserved)

unfoldable pub put : (ℕ → Option Quota) → ℕ → Quota → ℕ → Option Quota
put table k q j = if j == k then some q else table j

module _ (table : ℕ → Option Quota) (k : ℕ) (q : Quota) where
  pub put_self : put table k q k ≡ some q
  unfolding put
  put_self = ground arith

  pub put_ne : (j : ℕ) → j ≢ k → put table k q j ≡ table j
  unfolding put
  put_ne j h = ground arith

abbrev pub put_quota : ℕ → Quota → Store → Store
put_quota k q s = record s { quotas = put s.quotas k q }

unfoldable pub write_checked : ℕ → Quota → Tx ℕ
write_checked k q s = if counters_ok q then ok (1, put_quota k q s) else err check_violation

unfoldable pub update_row : ℕ → ℕ → (Quota → Quota) → ℕ → Quota → Tx ℕ
unfolding write_checked
update_row application lock f k q s =
    if q.application_id == application && q.lock_version == lock
    then write_checked k (f q) s
    else ok (0, s)

-- `userAiuQuota.updateMany({ where: { id, applicationId, lockVersion }, data })`: the count.
unfoldable pub update_quota : ℕ → ℕ → ℕ → (Quota → Quota) → Tx ℕ
unfolding update_row
update_quota application id lock f s = elim (s.quotas id) [
  | none ↦ ok (0, s)
  | some q ↦ update_row application lock f id q s
]

-- `userAiuReservation.updateMany({ where, data })`
unfoldable pub update_reservations : (Reservation → Bool) → (Reservation → Reservation) → Tx ℕ
update_reservations p f s =
    ok (count_where p s.reservations, record s { reservations = update_where p f s.reservations })

abbrev pub same_entry : Entry → Entry → Bool
same_entry e f = e.application_id == f.application_id && same_key e.key f.key

abbrev pub entry_ok : Entry → Bool
entry_ok e = in_range e.consumed_after && (in_range e.reserved_after && in_range e.limit_after)

-- `userAiuLedgerEntry.create`
unfoldable pub create_entry : Entry → Tx (Unit {0})
create_entry e s =
    if any (same_entry e) s.ledger
    then err unique_violation
    else if entry_ok e
    then ok (tt, record s { ledger = e ∷ s.ledger })
    else err check_violation

abbrev pub clashes : Reservation → Reservation → Bool
clashes r o =
    r.id == o.id
    || (r.application_id == o.application_id
        && (r.user_id == o.user_id && r.operation_id == o.operation_id))

abbrev pub amounts_ok : Reservation → Bool
amounts_ok r = in_range r.estimated && (in_range r.reserved && in_range r.settled)

-- `userAiuReservation.create`
unfoldable pub create_reservation : Reservation → Tx (Unit {0})
create_reservation r s =
    if any (clashes r) s.reservations
    then err unique_violation
    else if amounts_ok r
    then ok (tt, record s { reservations = r ∷ s.reservations })
    else err check_violation
