-- ===== src/Pipeline/Inbox/Calls.antt =====
-- The calls of a worker for a row that it leased, of apps/worker/src/pipeline/prisma-inbox-store.ts.
use token_pilot.Base.{
  ℕ, ◌+◌, ◌*◌, Bool, true, false, Option, none, some, List, [], ◌∷◌, any, update_where, ◌&&◌, ◌==◌,
  ltb, if◌then◌else◌,
}
use token_pilot.Base.Table.{put}
use token_pilot.Pipeline.{
  PipelineStage, InboxStatus, InboxRow, InboxLease, RegistryRow, DeadLetterStatus, DeadLetterEvent,
  OutboxMessage, OutboxRow, Database,
}
use token_pilot.Pipeline.Errors.{PipelineFailure}
use Prim.Native.String as Str
use Prim.Native.String.{String}
use token_pilot.Pipeline.Inbox.{
  Answer, lease_lost, map_lease, ok, owned_row, registry_of, thrown, update_registry, ◌>>=◌,
}

abbrev later_of : ℕ → ℕ → ℕ
later_of a b = if ltb a b then b else a

abbrev pub expiry_after : ℕ → ℕ → Option ℕ → ℕ
expiry_after now duration none = now + duration * 1000
expiry_after now duration (some expires) = later_of (expires + 1) (now + duration * 1000)

-- The UPDATE of `advance` on the row that the worker owns, with a later expiry.
unfoldable pub advance_row :
    ℕ
    → ℕ
    → InboxLease
    → PipelineStage
    → Database
    → InboxRow
    → Option RegistryRow
    → Answer (InboxLease × Database)
advance_row now duration lease stage db row none = thrown lease_lost
advance_row now duration lease stage db row (some entry) =
    let expires = expiry_after now duration row.lease_expires_at in
    let row' = record row { stage = stage; lease_expires_at = some expires } in
    map_lease row' entry.payload_hash lease.lease_owner expires >>= λ lease'. ok (
      lease',
      update_registry lease.event_id lease.application_id
          (λ e. record e { processing_stage = stage })
          (record db { inbox = put db.inbox lease.id row' }),
    )

unfoldable pub advance_owned :
    ℕ → ℕ → InboxLease → PipelineStage → Database → Option InboxRow → Answer (InboxLease × Database)
advance_owned now duration lease stage db none = thrown lease_lost
advance_owned now duration lease stage db (some row) =
    advance_row now duration lease stage db row (registry_of db row)

unfoldable pub advance :
    ℕ → ℕ → InboxLease → PipelineStage → Database → Answer (InboxLease × Database)
advance now duration lease stage db =
    advance_owned now duration lease stage db (owned_row now lease db)

-- `checkpoint` is `advance` in a transaction of its own.
abbrev pub checkpoint :
    ℕ → ℕ → InboxLease → PipelineStage → Database → Answer (InboxLease × Database)
checkpoint now duration lease stage db = advance now duration lease stage db

abbrev has_outbox_key : ℕ → ℕ → OutboxRow → Bool
has_outbox_key application_id key row =
    row.application_id == application_id && row.message.idempotency_key == key

-- A message with a key that the outbox has is skipped.
unfoldable pub create_outboxes : ℕ → List OutboxMessage → List OutboxRow → List OutboxRow
create_outboxes application_id [] outbox = outbox
create_outboxes application_id (message ∷ messages) outbox =
    create_outboxes application_id messages (
      if any (has_outbox_key application_id message.idempotency_key) outbox
      then outbox
      else record { application_id = application_id; message = message } ∷ outbox)

abbrev pub settle : ℕ → Database → Database
settle id db = record db { settled = λ k. if k == id then db.settled k + 1 else db.settled k }

-- The three statements that read the clock, in their order.
pub record CommitTimes : Type 0 where
  pub locked_at : ℕ
  pub committed_at : ℕ
  pub outbox_at : ℕ

-- `commitOfficial`: what the writer answers (with its further messages and metrics of type `A`) and
-- the messages of every event are given.
unfoldable pub commit_locked :
    {A : Type 0}
    → CommitTimes
    → ℕ
    → InboxLease
    → ℕ
    → Answer (List OutboxMessage × A)
    → Answer (List OutboxMessage)
    → Database
    → Option InboxRow
    → Answer ((InboxLease × A) × Database)
commit_locked times duration lease application_id written base db none = thrown lease_lost
commit_locked times duration lease application_id written base db (some row) =
    written >>= λ (further, metrics).
    advance times.committed_at duration lease PipelineStage.official_committed (settle lease.id db)
    >>= λ (current, db1). base >>= λ messages.
        advance times.outbox_at duration current PipelineStage.outbox_created (record db1 {
          outbox =
              create_outboxes application_id further
                (create_outboxes application_id messages db1.outbox);
        })
        >>= λ (final, db2). ok ((final, metrics), db2)

unfoldable pub commit_official :
    {A : Type 0}
    → CommitTimes
    → ℕ
    → InboxLease
    → ℕ
    → Answer (List OutboxMessage × A)
    → Answer (List OutboxMessage)
    → Database
    → Answer ((InboxLease × A) × Database)
commit_official times duration lease application_id written base db =
    commit_locked times duration lease application_id written base db
      (owned_row times.locked_at lease db)

abbrev pub is_queued_for : ℕ → DeadLetterEvent → Bool
is_queued_for inbox_id event = event.inbox_id == inbox_id && elim event.status [
  | DeadLetterStatus.replay_queued ↦ true
  | DeadLetterStatus.open_ ↦ false
  | DeadLetterStatus.resolved ↦ false
  | DeadLetterStatus.ignored ↦ false
]

abbrev pub resolve_event : ℕ → DeadLetterEvent → DeadLetterEvent
resolve_event now event = record event {
  status = DeadLetterStatus.resolved;
  resolved_at = some now;
  next_retry_at = none;
}

abbrev pub resolve_queued : ℕ → ℕ → Database → Database
resolve_queued now inbox_id db = record db {
  dead_letters = update_where (is_queued_for inbox_id) (resolve_event now) db.dead_letters;
}

-- A day has 86,400,000,000 microseconds.
abbrev pub completed_row : ℕ → ℕ → InboxRow → InboxRow
completed_row now ttl_days row = record row {
  status = InboxStatus.completed;
  stage = PipelineStage.completed;
  completed_at = some now;
  payload_purge_after = some (now + ttl_days * 86400000000);
  replay_intent = none;
}

unfoldable pub complete_owned :
    ℕ → ℕ → InboxLease → Database → Option InboxRow → Answer (Unit {0} × Database)
complete_owned now ttl_days lease db none = thrown lease_lost
complete_owned now ttl_days lease db (some row) = ok (
  tt,
  resolve_queued now lease.id (
      update_registry row.event_id lease.application_id
        (λ e. record e { processing_stage = PipelineStage.completed })
        (record db { inbox = put db.inbox lease.id (completed_row now ttl_days row) })),
)

unfoldable pub complete : ℕ → ℕ → InboxLease → Database → Answer (Unit {0} × Database)
complete now ttl_days lease db = complete_owned now ttl_days lease db (owned_row now lease db)

abbrev pub error_text : PipelineFailure → String
error_text failure = Str.◌++◌ failure.code (Str.◌++◌ ": " failure.message)

abbrev pub retried_row : ℕ → String → InboxRow → InboxRow
retried_row retry_at text row = record row {
  status = InboxStatus.failed;
  available_at = retry_at;
  next_retry_at = some retry_at;
  last_error = some text;
}

unfoldable pub retry_owned :
    InboxLease → PipelineFailure → ℕ → Database → Option InboxRow → Answer (Unit {0} × Database)
retry_owned lease failure retry_at db none = thrown lease_lost
retry_owned lease failure retry_at db (some row) = ok (
  tt,
  record db { inbox = put db.inbox lease.id (retried_row retry_at (error_text failure) row) },
)

unfoldable pub retry :
    ℕ → InboxLease → PipelineFailure → ℕ → Database → Answer (Unit {0} × Database)
retry now lease failure retry_at db = retry_owned lease failure retry_at db (owned_row now lease db)

abbrev pub dead_row : String → InboxRow → InboxRow
dead_row text row = record row {
  status = InboxStatus.dead_letter;
  stage = PipelineStage.dead_letter;
  next_retry_at = none;
  last_error = some text;
}

-- The identifier of the new event is given.
abbrev pub dead_letter_event : ℕ → InboxLease → PipelineFailure → DeadLetterEvent
dead_letter_event id lease failure = record {
  id = id;
  application_id = lease.application_id;
  event_id = lease.event_id;
  inbox_id = lease.id;
  stage = lease.stage;
  error_code = failure.code;
  error_class = failure.error_class;
  error_message = failure.message;
  status = DeadLetterStatus.open_;
  attempt_count = lease.attempt_count;
  replay_count = 0;
  resolved_at = none;
  next_retry_at = none;
}

unfoldable pub dead_letter_owned :
    ℕ → ℕ → InboxLease → PipelineFailure → Database → Option InboxRow → Answer (Unit {0} × Database)
dead_letter_owned now id lease failure db none = thrown lease_lost
dead_letter_owned now id lease failure db (some row) =
    let db1 = resolve_queued now lease.id db in
    ok (
      tt,
      update_registry lease.event_id lease.application_id
          (λ e. record e {
            processing_stage = PipelineStage.dead_letter;
            last_error = some (error_text failure);
          })
          (record db1 {
            dead_letters = dead_letter_event id lease failure ∷ db1.dead_letters;
            inbox = put db1.inbox lease.id (dead_row (error_text failure) row);
          }),
    )

unfoldable pub dead_letter :
    ℕ → ℕ → InboxLease → PipelineFailure → Database → Answer (Unit {0} × Database)
dead_letter now id lease failure db =
    dead_letter_owned now id lease failure db (owned_row now lease db)
