-- ===== src/Pipeline.antt =====
-- The usage pipeline of the worker: the stages, the rows of the inbox, what a worker holds of a row
-- while it processes it, and the tables that the pipeline writes (apps/worker/src/pipeline/types.ts
-- and packages/db/prisma).
pub mod Errors
pub mod Inbox
pub mod Replay
pub mod Attempt
pub mod Processor
pub mod Rows
pub mod Once
pub mod Interleaving
pub mod Attempts
pub mod Ends
pub mod Delay
mod Tests
use token_pilot.Base.{ℕ, Bool, Option, List, ltb, ◌==◌, if◌then◌else◌}
use token_pilot.Base.Table.{Table, put}
use Prim.Native.String.{String}

pub data PipelineStage : Type 0 where
  received : PipelineStage
  normalized : PipelineStage
  model_resolved : PipelineStage
  provider_cost_rated : PipelineStage
  aiu_rated : PipelineStage
  quota_settled : PipelineStage
  official_committed : PipelineStage
  outbox_created : PipelineStage
  completed : PipelineStage
  dead_letter : PipelineStage

-- The position in PIPELINE_STAGES.
abbrev pub stage_rank : PipelineStage → ℕ
stage_rank PipelineStage.received = 0
stage_rank PipelineStage.normalized = 1
stage_rank PipelineStage.model_resolved = 2
stage_rank PipelineStage.provider_cost_rated = 3
stage_rank PipelineStage.aiu_rated = 4
stage_rank PipelineStage.quota_settled = 5
stage_rank PipelineStage.official_committed = 6
stage_rank PipelineStage.outbox_created = 7
stage_rank PipelineStage.completed = 8
stage_rank PipelineStage.dead_letter = 9

-- `stageRank(stage) < stageRank(target)`.
abbrev pub is_before : PipelineStage → PipelineStage → Bool
is_before stage target = ltb (stage_rank stage) (stage_rank target)

pub data InboxStatus : Type 0 where
  pending : InboxStatus
  leased : InboxStatus
  failed : InboxStatus
  completed : InboxStatus
  dead_letter : InboxStatus

-- What a reconciliation wants of a replayed event; the authority and the decision to keep the quota
-- are the same in all of them.
pub record ReplayIntent : Type 0 where
  pub run_id : ℕ
  pub rerates_provider_cost : Bool
  pub backfills_aiu : Bool

-- A row of `ingestion_inbox`. The database writes `updated_at`, which nothing reads.
pub record InboxRow : Type 0 where
  pub id : ℕ
  pub application_id : ℕ
  pub event_id : ℕ
  pub payload : Option ℕ
  pub status : InboxStatus
  pub stage : PipelineStage
  pub attempt_count : ℕ
  pub available_at : ℕ
  pub next_retry_at : Option ℕ
  pub lease_owner : Option ℕ
  pub lease_expires_at : Option ℕ
  pub last_error : Option String
  pub completed_at : Option ℕ
  pub payload_purge_after : Option ℕ
  pub replay_intent : Option ReplayIntent
  pub created_at : ℕ

pub record InboxLease : Type 0 where
  pub id : ℕ
  pub application_id : ℕ
  pub event_id : ℕ
  pub payload_hash : ℕ
  pub payload : ℕ
  pub stage : PipelineStage
  pub attempt_count : ℕ
  pub lease_owner : ℕ
  pub lease_expires_at : ℕ
  pub created_at : ℕ
  pub replay_intent : Option ReplayIntent

-- A row of `usage_event_registry`, by its application and its event.
pub record RegistryRow : Type 0 where
  pub payload_hash : ℕ
  pub event_time : ℕ
  pub processing_stage : PipelineStage
  pub last_error : Option String

pub data DeadLetterStatus : Type 0 where
  open_ : DeadLetterStatus
  replay_queued : DeadLetterStatus
  resolved : DeadLetterStatus
  ignored : DeadLetterStatus

pub record DeadLetterEvent : Type 0 where
  pub id : ℕ
  pub application_id : ℕ
  pub event_id : ℕ
  pub inbox_id : ℕ
  pub stage : PipelineStage
  pub error_code : String
  pub error_class : String
  pub error_message : String
  pub status : DeadLetterStatus
  pub attempt_count : ℕ
  pub replay_count : ℕ
  pub resolved_at : Option ℕ
  pub next_retry_at : Option ℕ

pub record OutboxMessage : Type 0 where
  pub aggregate_type : ℕ
  pub aggregate_id : ℕ
  pub event_type : ℕ
  pub payload : ℕ
  pub idempotency_key : ℕ

pub record OutboxRow : Type 0 where
  pub application_id : ℕ
  pub message : OutboxMessage

-- `settled` counts how often the official writer has committed the settlement of an inbox row since
-- the row was queued: the tables that it writes are not modelled.
pub record Database : Type 0 where
  pub inbox : Table InboxRow
  pub registry : ℕ → Table RegistryRow
  pub dead_letters : List DeadLetterEvent
  pub outbox : List OutboxRow
  pub settled : ℕ → ℕ

abbrev pub put_registry : ℕ → ℕ → RegistryRow → (ℕ → Table RegistryRow) → ℕ → Table RegistryRow
put_registry application_id event_id entry registry a =
    if a == application_id then put (registry a) event_id entry else registry a
