-- ===== src/Spool.antt =====
-- The durable spool of usage events in the SDK: sdks/node/src/runtime/usage-spool.ts.
pub mod Reporter
pub mod Invariant
pub mod View
pub mod Progress
pub mod Flush
pub mod Stuck
mod Tests
use token_pilot.Base.{
  ℕ, ◌+◌, ◌-◌, Bool, true, false, not, ◌||◌, Option, none, some, List, [], ◌∷◌, ◌++◌, map, length,
  find, keep, any, take, ltb, ◌==◌, if◌then◌else◌,
}

-- An event as the spool sees it: its identifier, and the JSON text of the whole.
pub record UsageEvent : Type 0 where
  pub event_id : ℕ
  pub text : List ℕ

-- A row of `usage_events`. `payload` is the event that the row's JSON text is parsed to.
pub record EventRow : Type 0 where
  pub event_id : ℕ
  pub payload : UsageEvent
  pub created_at : ℕ

pub record RejectedRow : Type 0 where
  pub event_id : ℕ
  pub payload : UsageEvent
  pub reason_code : List ℕ
  pub rejected_at : ℕ

-- The two tables. The rows of `usage_events` are in the order of their rowid: a new row has one
-- more than the largest.
pub record Spool : Type 0 where
  pub usage_events : List EventRow
  pub usage_rejected : List RejectedRow

abbrev pub has_event_id : ℕ → EventRow → Bool
has_event_id id row = row.event_id == id

abbrev pub has_rejected_id : ℕ → RejectedRow → Bool
has_rejected_id id row = row.event_id == id

unfoldable pub known : ℕ → Spool → Bool
known id spool =
    any (has_event_id id) spool.usage_events || any (has_rejected_id id) spool.usage_rejected

pub data Enqueued : Type 0 where
  answered : Bool → Spool → Enqueued
  invalid_event : Enqueued
  capacity_error : ℕ → ℕ → Enqueued

-- `INSERT OR IGNORE INTO usage_events`: whether a row was added.
unfoldable pub insert_event : EventRow → Spool → Enqueued
insert_event row spool =
    if any (has_event_id row.event_id) spool.usage_events
    then answered false spool
    else answered true (record spool { usage_events = spool.usage_events ++ (row ∷ []) })

-- The event schema and the bytes of a text in UTF-8 are parameters.
module _ (schema_accepts : UsageEvent → Bool) (byte_length : List ℕ → ℕ) (maximum_bytes : ℕ) where
  unfoldable pub enqueue_new : ℕ → ℕ → UsageEvent → Spool → Enqueued
  enqueue_new current_bytes now event spool =
      if ltb maximum_bytes (current_bytes + byte_length event.text)
      then capacity_error current_bytes maximum_bytes
      else insert_event (record { event_id = event.event_id; payload = event; created_at = now })
          spool

  -- `current_bytes` is what the files of the spool hold at the call.
  unfoldable pub enqueue : ℕ → ℕ → UsageEvent → Spool → Enqueued
  enqueue current_bytes now event spool =
      if not (schema_accepts event)
      then invalid_event
      else if known event.event_id spool
      then answered false spool
      else enqueue_new current_bytes now event spool

pub record SpooledUsageEvent : Type 0 where
  pub event_id : ℕ
  pub payload : UsageEvent

abbrev pub spooled : EventRow → SpooledUsageEvent
spooled row = record { event_id = row.event_id; payload = row.payload }

unfoldable pub pending : ℕ → Spool → List SpooledUsageEvent
pending limit spool = map spooled (take limit spool.usage_events)

-- `DELETE FROM usage_events WHERE event_id = ?` on the table, with the rows that remain.
abbrev pub delete_event : ℕ → List EventRow → List EventRow
delete_event id rows = keep (λ row. not (has_event_id id row)) rows

unfoldable pub remove_event : ℕ → Spool → Spool
remove_event id spool = record spool { usage_events = delete_event id spool.usage_events }

-- The number of rows that a removal deletes.
abbrev pub changes : Spool → Spool → ℕ
changes before after = length before.usage_events - length after.usage_events

unfoldable pub acknowledge : List ℕ → Spool → ℕ × Spool
acknowledge [] spool = (0, spool)
acknowledge (id ∷ ids) spool =
    let removed = remove_event id spool in
    let (rest, left) = acknowledge ids removed in (changes spool removed + rest, left)

-- `INSERT OR IGNORE INTO usage_rejected … SELECT … FROM usage_events WHERE event_id = ?`, with the
-- row that the key finds.
unfoldable pub copy_rejected : List ℕ → ℕ → Option EventRow → List RejectedRow → List RejectedRow
copy_rejected reason now none rejected = rejected
copy_rejected reason now (some row) rejected =
    if any (has_rejected_id row.event_id) rejected
    then rejected
    else rejected
      ++ (record {
        event_id = row.event_id;
        payload = row.payload;
        reason_code = take 120 reason;
        rejected_at = now;
      }
          ∷ [])

unfoldable pub reject : ℕ → List ℕ → ℕ → Spool → Spool
reject id reason now spool = remove_event id (record spool {
  usage_rejected =
      copy_rejected reason now (find (has_event_id id) spool.usage_events) spool.usage_rejected;
})

abbrev pub depth : Spool → ℕ
depth spool = length spool.usage_events
