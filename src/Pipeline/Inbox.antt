-- ===== src/Pipeline/Inbox.antt =====
-- The store of the inbox: apps/worker/src/pipeline/prisma-inbox-store.ts. Instants are in
-- microseconds. A transaction that throws is rolled back, so a thrown value carries no database.
pub mod Leasing
pub mod Calls
use token_pilot.Base.{
  ℕ, ◌≡◌, refl, Bool, true, false, Option, none, some, ◌&&◌, ◌||◌, ltb, leb, not, same_option,
  if◌then◌else◌,
}
use token_pilot.Pipeline.{
  PipelineStage, InboxStatus, InboxRow, InboxLease, RegistryRow, Database, put_registry,
}
use token_pilot.Pipeline.Errors.{Thrown, retryable, error, no_object}
use Prim.Native.String as Str
use Prim.Native.String.{String}

pub data Answer {ℓ} (A : Type ℓ) : Type ℓ where
  ok : A → Answer A
  thrown : Thrown → Answer A

infixl 5 ◌>>=◌
abbrev pub ◌>>=◌ {ℓ κ} : {A : Type ℓ} {B : Type κ} → Answer A → (A → Answer B) → Answer B
ok a >>= f = f a
thrown e >>= f = thrown e

pub >>=-ok {ℓ κ} :
    {A : Type ℓ} {B : Type κ} (m : Answer A) (f : A → Answer B) (b : B)
    → (m >>= f) ≡ ok b
    → (a : A) × (m ≡ ok a) × (f a ≡ ok b)
>>=-ok (ok a) f b h = (a, refl, h)
>>=-ok (thrown e) f b h = cc

abbrev pub is_leased : InboxStatus → Bool
is_leased InboxStatus.leased = true
is_leased InboxStatus.pending = false
is_leased InboxStatus.failed = false
is_leased InboxStatus.completed = false
is_leased InboxStatus.dead_letter = false

abbrev pub is_waiting : InboxStatus → Bool
is_waiting InboxStatus.pending = true
is_waiting InboxStatus.failed = true
is_waiting InboxStatus.leased = false
is_waiting InboxStatus.completed = false
is_waiting InboxStatus.dead_letter = false

abbrev pub is_finished : PipelineStage → Bool
is_finished PipelineStage.completed = true
is_finished PipelineStage.dead_letter = true
is_finished stage = false

-- `instant > now`, of which NULL is no case.
abbrev pub is_after : Option ℕ → ℕ → Bool
is_after none now = false
is_after (some instant) now = ltb now instant

abbrev pub is_expired : Option ℕ → ℕ → Bool
is_expired none now = false
is_expired (some instant) now = leb instant now

abbrev coalesce : Option ℕ → ℕ → ℕ
coalesce none instant = instant
coalesce (some instant) other = instant

-- The condition of the candidates.
unfoldable pub can_be_leased : ℕ → InboxRow → Bool
can_be_leased now row =
    ((is_waiting row.status
        && (leb row.available_at now && leb (coalesce row.next_retry_at row.available_at) now))
      || (is_leased row.status && is_expired row.lease_expires_at now))
    && not (is_finished row.stage)

-- The condition by which a worker owns a row.
unfoldable pub owns : ℕ → InboxLease → InboxRow → Bool
owns now lease row =
    is_leased row.status
    && (same_option row.lease_owner (some lease.lease_owner) && is_after row.lease_expires_at now)

-- The row with the identifier of the lease, if the worker still owns it.
unfoldable pub owned_of : ℕ → InboxLease → Option InboxRow → Option InboxRow
owned_of now lease none = none
owned_of now lease (some row) = if owns now lease row then some row else none

unfoldable pub owned_row : ℕ → InboxLease → Database → Option InboxRow
owned_row now lease db = owned_of now lease (db.inbox lease.id)

-- The row of the registry that the inbox row joins.
unfoldable pub registry_of : Database → InboxRow → Option RegistryRow
registry_of db row = db.registry row.application_id row.event_id

unfoldable pub update_registry : ℕ → ℕ → (RegistryRow → RegistryRow) → Database → Database
update_registry event_id application_id f db = elim (db.registry application_id event_id) [
  | none ↦ db
  | some entry ↦ record db { registry = put_registry application_id event_id (f entry) db.registry }
]

abbrev type_error : String → Thrown
type_error message = error "TypeError" message no_object

abbrev pub range_error : String → Thrown
range_error message = error "RangeError" message no_object

abbrev pub lease_lost : Thrown
lease_lost =
    retryable "RetryablePipelineError" "PIPELINE_LEASE_LOST" "Inbox lease is no longer owned"

-- A row is mapped where its owner and expiry are set.
unfoldable pub map_lease : InboxRow → ℕ → ℕ → ℕ → Answer InboxLease
map_lease row payload_hash owner expires = elim row.payload [
  | none ↦ thrown (type_error "Inbox was leased after its payload was purged")
  | some payload ↦ ok (record {
    id = row.id;
    application_id = row.application_id;
    event_id = row.event_id;
    payload_hash = payload_hash;
    payload = payload;
    stage = row.stage;
    attempt_count = row.attempt_count;
    lease_owner = owner;
    lease_expires_at = expires;
    created_at = row.created_at;
    replay_intent = row.replay_intent;
  })
]
