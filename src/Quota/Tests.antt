-- ===== src/Quota/Tests.antt =====
-- A store with one user, on which the children call the quota code.
mod Closing
mod Charging
mod Reserving
use token_pilot.Base.{
  ℕ, inl, inr, ◌⊎◌, Bool-cases, ◌+◌, ◌≡◌, ◌≢◌, refl, true, false, Option, some, none, [], ◌∷◌, ◌==◌,
  arith, if◌then◌else◌,
}
use token_pilot.Base.Int.{pos, ◌+ℤ◌, ◌-ℤ◌}
use native.Mathlib.Decide.{ℕ_discrete}
use token_pilot.Quota.Types.{
  Store, User, Quota, Reservation, Status, Entry, EntryType, KeyKind, PeriodType,
}
use token_pilot.Quota.Store.{Result, ok, err, counters_ok, ◌>>=◌, ◌>>◌, put, put_self, put_ne}
use token_pilot.Quota.Claims.{Codec, reservation_claims}
use token_pilot.Quota.Balance.{Inv, owner, tenant, held, spent, locked}

abbrev pub user : User
user = record { id = 1; application_id = 7; external_id = 3; blocked = false }

abbrev pub quota : Quota
quota = record {
  id = 5;
  application_id = 7;
  user_id = 1;
  policy_id = none;
  period_type = PeriodType.lifetime;
  period_start = 0;
  period_end = none;
  limit = pos 500;
  consumed = pos 100;
  reserved = pos 40;
  hard_limit = true;
  enabled = true;
  lock_version = 2;
}

abbrev pub row : Reservation
row = record {
  id = 9;
  application_id = 7;
  user_id = 1;
  quota_id = 5;
  operation_id = 11;
  virtual_model = 2;
  candidate_model_ids = 4 ∷ 6 ∷ [];
  estimated = pos 40;
  reserved = pos 40;
  settled = pos 0;
  token_hash = 1009;
  status = Status.reserved;
  expires_at = 900;
  settled_at = none;
  released_at = none;
  lock_version = 0;
}

abbrev pub opening : Entry
opening = record {
  application_id = 7;
  user_id = 1;
  quota_id = 5;
  entry_type = EntryType.reserve;
  consumed_delta = pos 100;
  reserved_delta = pos 40;
  consumed_after = pos 100;
  reserved_after = pos 40;
  limit_after = pos 500;
  source_event_id = none;
  source_reservation_id = some 9;
  key = record { kind = KeyKind.reservation_reserve; subject = 9; detail = 0; nonce = 0 };
}

abbrev pub before : Store
before = record {
  users = user ∷ [];
  quotas = put (λ _. none) 5 quota;
  quota_of = λ u. if u == 1 then some 5 else none;
  reservations = row ∷ [];
  ledger = opening ∷ [];
}

-- A token is the identifier of its reservation and a constant.
abbrev pub codec : Codec
codec = record {
  sign = λ c. 1000 + c.reservation_id;
  hash = λ t. t;
  verify = λ t. if t == 1009 then some (reservation_claims row) else none;
}

by_key :
    (P : ℕ → Option Quota → Type 0)
    → P 5 (some quota)
    → ((k : ℕ) → k ≢ 5 → P k none)
    → (k : ℕ) → P k (before.quotas k)
by_key P here there k = elim (ℕ_discrete k 5) [
  | yes at ↦ rw (at, put_self (λ _. none) 5 quota) here
  | no off ↦ rw (put_ne (λ _. none) 5 quota k off) (there k off)
]

pub before-Inv : Inv before
unfolding held spent locked counters_ok ◌+ℤ◌
before-Inv = record {
  spent_eq =
      by_key (λ k o. elim o [ none ↦ pos 0 | some q ↦ q.consumed ] ≡ spent k before.ledger) refl
        (λ k off. ground arith);
  locked_eq =
      by_key (λ k o. elim o [ none ↦ pos 0 | some q ↦ q.reserved ] ≡ locked k before.ledger) refl
        (λ k off. ground arith);
  held_eq =
      by_key (λ k o. elim o [ none ↦ pos 0 | some q ↦ q.reserved ] ≡ held k before.reservations)
        refl (λ k off. ground arith);
  linked = ((refl, named, named_app), tt);
  distinct = (tt, tt);
  keyed =
      by_key (λ k o. (q : Quota) → o ≡ some q → q.id ≡ k)
        (λ q h. let same : quota ≡ q = cc in rw (← same) refl) (λ k off q h. cc);
  bounded =
      by_key (λ k o. (q : Quota) → o ≡ some q → counters_ok q ≡ true)
        (λ q h. let same : quota ≡ q = cc in rw (← same) refl) (λ k off q h. cc);
  indexed = λ u k h. indexed u k (Bool-cases (u == 1)) h;
}
  where
    named : owner before.quotas 5 ≡ some 1
    named = rw (put_self (λ _. none) 5 quota, owner) refl

    named_app : tenant before.quotas 5 ≡ some 7
    named_app = rw (put_self (λ _. none) 5 quota, tenant) refl

    indexed :
        (u k : ℕ)
        → ((u == 1) ≡ true) ⊎ ((u == 1) ≡ false)
        → before.quota_of u ≡ some k
        → owner before.quotas k ≡ some u
    indexed u k (inl hit) h =
        let e : some 5 ≡ some k = rw hit at h in
        let same : 5 ≡ k = cc in let one : u ≡ 1 = ground arith in rw (← same, one) named
    indexed u k (inr miss) h = let e : none ≡ some k = rw miss at h in cc

-- What a call leaves, and what it answers.
abbrev pub left : {A : Type 0} → Result (A × Store) → Store
left (err e) = before
left (ok (a, t)) = t

abbrev pub answer : {A : Type 0} → A → Result (A × Store) → A
answer d (err e) = d
answer d (ok (a, t)) = a
