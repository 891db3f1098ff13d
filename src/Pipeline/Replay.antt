-- ===== src/Pipeline/Replay.antt =====
-- What puts an inbox row back to the start: the replay of a dead-letter event
-- (apps/api/src/dlq.service.ts) and the replay of a range of events by a reconciliation
-- (resetInbox of apps/worker/src/reconciliation/operation-executor.ts). The audit entry is left out.
use token_pilot.Base.{
  ℕ, ◌+◌, Bool, true, false, Option, none, some, find, update_where, ◌&&◌, ◌==◌, ltb, leb, not,
  if◌then◌else◌,
}
use token_pilot.Base.Table.{put}
use token_pilot.Pipeline.{
  PipelineStage, InboxStatus, InboxRow, RegistryRow, DeadLetterStatus, DeadLetterEvent,
  ReplayIntent, Database, put_registry,
}
use token_pilot.Pipeline.Inbox.{registry_of, is_leased}

-- The row as it was first queued; a replay of a dead letter keeps its intent.
abbrev pub requeued_row : ℕ → Option ReplayIntent → InboxRow → InboxRow
requeued_row now intent row = record row {
  status = InboxStatus.pending;
  stage = PipelineStage.received;
  attempt_count = 0;
  available_at = now;
  next_retry_at = none;
  lease_owner = none;
  lease_expires_at = none;
  last_error = none;
  completed_at = none;
  payload_purge_after = none;
  replay_intent = intent;
}

pub data ReplayAnswer : Type 0 where
  queued : Database → ReplayAnswer
  idempotent : ReplayAnswer
  not_found : ReplayAnswer
  not_open : ReplayAnswer
  payload_gone : ReplayAnswer
  registry_missing : ReplayAnswer

abbrev is_pending : InboxStatus → Bool
is_pending InboxStatus.pending = true
is_pending status = false

abbrev queue_event : ℕ → DeadLetterEvent → DeadLetterEvent
queue_event now event = record event {
  status = DeadLetterStatus.replay_queued;
  replay_count = event.replay_count + 1;
  next_retry_at = some now;
}

abbrev pub is_event : ℕ → ℕ → DeadLetterEvent → Bool
is_event id application_id event = event.id == id && event.application_id == application_id

abbrev unsettle : ℕ → Database → Database
unsettle id db = record db { settled = λ k. if k == id then 0 else db.settled k }

-- The entry of the registry is updated by the event and the application of the dead letter's row.
abbrev pub queued_database : ℕ → DeadLetterEvent → InboxRow → RegistryRow → Database → Database
queued_database now event row entry db = unsettle row.id (record db {
  dead_letters = update_where (λ e. e.id == event.id) (queue_event now) db.dead_letters;
  inbox = put db.inbox row.id (requeued_row now row.replay_intent row);
  registry =
      put_registry row.application_id event.event_id
        (record entry { processing_stage = PipelineStage.received; last_error = none }) db.registry;
})

unfoldable pub queue_replay :
    ℕ → DeadLetterEvent → InboxRow → Database → Option RegistryRow → ReplayAnswer
queue_replay now event row db none = registry_missing
queue_replay now event row db (some entry) = queued (queued_database now event row entry db)

abbrev pub has_payload : Option ℕ → Bool
has_payload none = false
has_payload (some payload) = true

unfoldable pub replay_open : ℕ → DeadLetterEvent → Database → Option InboxRow → ReplayAnswer
replay_open now event db none = payload_gone
replay_open now event db (some row) =
    if has_payload row.payload
    then queue_replay now event row db (registry_of db (record row { event_id = event.event_id }))
    else payload_gone

abbrev pub pending_row : Option InboxRow → Bool
pending_row none = false
pending_row (some row) = is_pending row.status

unfoldable pub replay_by_status : DeadLetterStatus → ℕ → DeadLetterEvent → Database → ReplayAnswer
replay_by_status DeadLetterStatus.replay_queued now event db =
    if pending_row (db.inbox event.inbox_id) then idempotent else not_open
replay_by_status DeadLetterStatus.resolved now event db = not_open
replay_by_status DeadLetterStatus.ignored now event db = not_open
replay_by_status DeadLetterStatus.open_ now event db =
    replay_open now event db (db.inbox event.inbox_id)

unfoldable pub replay_found : ℕ → Database → Option DeadLetterEvent → ReplayAnswer
replay_found now db none = not_found
replay_found now db (some event) = replay_by_status event.status now event db

unfoldable pub replay_dead_letter : ℕ → ℕ → ℕ → Database → ReplayAnswer
replay_dead_letter now id application_id db =
    replay_found now db (find (is_event id application_id) db.dead_letters)

-- The range of a replay of an application, from `range_start` to before `range_end`.
pub record ReplayRange : Type 0 where
  pub application_id : ℕ
  pub range_start : ℕ
  pub range_end : ℕ

abbrev in_replay_range : ReplayRange → Option RegistryRow → Bool
in_replay_range range none = false
in_replay_range range (some entry) =
    leb range.range_start entry.event_time && ltb entry.event_time range.range_end

-- A row that a worker holds is left alone.
unfoldable pub is_reset : ReplayRange → Database → InboxRow → Bool
is_reset range db row =
    in_replay_range range (registry_of db row)
    && (row.application_id == range.application_id
        && (has_payload row.payload && not (is_leased row.status)))

abbrev pub reset_one : ℕ → ReplayIntent → ReplayRange → Database → Option InboxRow → Option InboxRow
reset_one now intent range db none = none
reset_one now intent range db (some row) =
    some (if is_reset range db row then requeued_row now (some intent) row else row)

abbrev pub resets : ReplayRange → Database → Option InboxRow → Bool
resets range db none = false
resets range db (some row) = is_reset range db row

unfoldable pub reset_inbox : ℕ → ReplayIntent → ReplayRange → Database → Database
reset_inbox now intent range db = record db {
  inbox = λ k. reset_one now intent range db (db.inbox k);
  settled = λ k. if resets range db (db.inbox k) then 0 else db.settled k;
}
