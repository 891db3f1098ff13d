-- ===== src/Pipeline/Interleaving.antt =====
-- Workers that process rows of the inbox at the same time, and replays between their calls, as steps
-- of apps/worker/src/pipeline and of the code that queues a row again.
pub mod Requeue
pub mod Safety
use token_pilot.Base.{ℕ, ◌+◌, ◌*◌, ◌≡◌, true, false, none, some, List}
use token_pilot.Base.Table.{Table, put}
use token_pilot.Pipeline.{
  PipelineStage, is_before, InboxRow, InboxLease, Database, OutboxMessage, ReplayIntent,
}
use token_pilot.Pipeline.Errors.{PipelineFailure}
use token_pilot.Pipeline.Inbox.{Answer, ok, can_be_leased, map_lease}
use token_pilot.Pipeline.Inbox.Leasing.{lease_row}
use token_pilot.Pipeline.Inbox.Calls.{
  advance, CommitTimes, commit_official, complete, retry, dead_letter,
}
use token_pilot.Pipeline.Replay.{ReplayRange, queued, replay_dead_letter, reset_inbox}
use token_pilot.Pipeline.Once.{Consistent, InSync}

-- The database, and by its owner the lease that each worker works with.
pub record World : Type 0 where
  pub database : Database
  pub held : Table InboxLease

-- One transaction of a worker or of a replay. An owner is new when a row is leased. A worker that
-- stops, or meets an exception, takes no step.
pub data Step (R : Type 0) (w : World) : World → Type 0 where
  leases :
      (k owner now duration hash : ℕ) (row row' : InboxRow) (l : InboxLease) (db' : Database)
      → w.database.inbox k ≡ some row
      → can_be_leased now row ≡ true
      → w.held owner ≡ none
      → lease_row owner now duration row w.database ≡ (some (row', hash), db')
      → map_lease row' hash owner (now + duration * 1000) ≡ ok l
      → Step R w (record { database = db'; held = put w.held owner l })
  checkpoints :
      (owner now duration : ℕ) (target : PipelineStage) (l l' : InboxLease) (db' : Database)
      → w.held owner ≡ some l
      → is_before l.stage target ≡ true
      → is_before target PipelineStage.official_committed ≡ true
      → advance now duration l target w.database ≡ ok (l', db')
      → Step R w (record { database = db'; held = put w.held owner l' })
  commits :
      (owner : ℕ) (times : CommitTimes) (duration application_id : ℕ)
      (written : Answer (List OutboxMessage × R)) (base : Answer (List OutboxMessage))
      (l l' : InboxLease) (report : R) (db' : Database)
      → w.held owner ≡ some l
      → is_before l.stage PipelineStage.outbox_created ≡ true
      → commit_official times duration l application_id written base w.database
        ≡ ok ((l', report), db')
      → Step R w (record { database = db'; held = put w.held owner l' })
  completes :
      (owner now ttl_days : ℕ) (l : InboxLease) (db' : Database)
      → w.held owner ≡ some l
      → is_before l.stage PipelineStage.outbox_created ≡ false
      → complete now ttl_days l w.database ≡ ok (tt, db')
      → Step R w (record w { database = db' })
  retries :
      (owner now retry_at : ℕ) (failure : PipelineFailure) (l : InboxLease) (db' : Database)
      → w.held owner ≡ some l
      → retry now l failure retry_at w.database ≡ ok (tt, db')
      → Step R w (record w { database = db' })
  gives_up :
      (owner now id : ℕ) (failure : PipelineFailure) (l : InboxLease) (db' : Database)
      → w.held owner ≡ some l
      → dead_letter now id l failure w.database ≡ ok (tt, db')
      → Step R w (record w { database = db' })
  replays :
      (now id application_id : ℕ) (db' : Database)
      → replay_dead_letter now id application_id w.database ≡ queued db'
      → Step R w (record w { database = db' })
  resets_ :
      (now : ℕ) (intent : ReplayIntent) (range : ReplayRange)
      → Step R w (record w { database = reset_inbox now intent range w.database })

pub data Reach (R : Type 0) (w : World) : World → Type 0 where
  here : Reach R w w
  next : {v u : World} → Reach R w v → Step R v u → Reach R w u

-- The rows are as they should be, and every lease in step with its row.
pub record Inv (w : World) : Type 0 where
  pub consistent : Consistent w.database
  pub owned : (owner : ℕ) (l : InboxLease) → w.held owner ≡ some l → l.lease_owner ≡ owner
  pub in_sync : (owner : ℕ) (l : InboxLease) → w.held owner ≡ some l → InSync l w.database
