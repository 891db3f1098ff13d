-- ===== src/Pipeline/Attempt.antt =====
-- What an attempt to process a leased event meets and keeps: the types of
-- apps/worker/src/pipeline/types.ts and the variables of apps/worker/src/pipeline/processor.ts. The
-- duration of an attempt is left out.
use token_pilot.Base.{
  ℕ, Bool, true, false, Option, none, some, List, [], ◌∷◌, ◌++◌, ◌==◌, any, update_where,
  if◌then◌else◌,
}
use token_pilot.Pipeline.{PipelineStage, ReplayIntent, InboxLease, OutboxMessage, Database}
use token_pilot.Pipeline.Inbox.{Answer, ok, thrown}
use token_pilot.Pipeline.Inbox.Calls.{CommitTimes}
use Prim.Native.String.{String}

pub record PipelineFlags : Type 0 where
  pub usage_pipeline : Bool
  pub model_resolution : Bool
  pub provider_cost : Bool
  pub aiu : Bool
  pub quota : Bool

pub data ResolutionStatus : Type 0 where
  matched : ResolutionStatus
  unmapped : ResolutionStatus
  conflict : ResolutionStatus
  disabled : ResolutionStatus

pub record Resolution : Type 0 where
  pub status : ResolutionStatus
  pub model_id : Option ℕ
  pub mapping_fingerprint : ℕ

-- What a stage makes, or that it has nothing to make.
pub data Artifact (A : Type 0) : Type 0 where
  made : A → Artifact A
  disabled : Artifact A
  not_applicable : Artifact A

pub data MetricStage : Type 0 where
  normalization model_resolution provider_cost aiu quota official_commit outbox : MetricStage

pub data MetricStatus : Type 0 where
  completed retry failed dead_letter : MetricStatus

pub record StageMetric : Type 0 where
  pub stage : MetricStage
  pub status : MetricStatus

abbrev pub metric_rank : MetricStage → ℕ
metric_rank MetricStage.normalization = 0
metric_rank MetricStage.model_resolution = 1
metric_rank MetricStage.provider_cost = 2
metric_rank MetricStage.aiu = 3
metric_rank MetricStage.quota = 4
metric_rank MetricStage.official_commit = 5
metric_rank MetricStage.outbox = 6

abbrev same_stage : StageMetric → StageMetric → Bool
same_stage a b = metric_rank a.stage == metric_rank b.stage

-- A metric takes the place of an earlier one of its stage.
unfoldable pub record_stage_metric : StageMetric → List StageMetric → List StageMetric
record_stage_metric metric metrics =
    if any (same_stage metric) metrics
    then update_where (same_stage metric) (λ old. metric) metrics
    else metrics ++ metric ∷ []

pub data OutcomeStatus : Type 0 where
  completed retry_scheduled failed dead_lettered : OutcomeStatus

-- What the official writer reports is of type `R`.
pub record PipelineOutcome (R : Type 0) : Type 0 where
  pub event_id : ℕ
  pub status : OutcomeStatus
  pub stage : PipelineStage
  pub stage_metrics : List StageMetric
  pub model_unmapped : Bool
  pub reported : Option R
  pub error_code : Option String

pub record SettlementContext (E N A : Type 0) : Type 0 where
  pub application_id : ℕ
  pub event : E
  pub normalized_usage : N
  pub resolution : Resolution
  pub provider_cost : Artifact A
  pub aiu : Artifact A
  pub quota : Artifact A
  pub replay_intent : Option ReplayIntent

-- What an attempt meets: the schema of an event, the handlers of the stages, the official writer, the
-- messages of every event, the options of the processor and the store, and for the n-th call of the
-- store the instants of its statements and what the other workers do before it.
pub record Surroundings (E N A R : Type 0) : Type 0 where
  pub parse : ℕ → Answer E
  pub normalize : E → Answer N
  pub resolve_model : ℕ → N → Answer Resolution
  pub rate_provider_cost : ℕ → N → Resolution → Answer A
  pub rate_aiu : ℕ → N → Resolution → Artifact A → Answer A
  pub settle_quota : ℕ → N → Artifact A → Answer A
  pub disabled_fingerprint : ℕ → ℕ → ℕ
  pub write_official : SettlementContext E N A → Answer (List OutboxMessage × Option R)
  pub base_messages : SettlementContext E N A → ℕ → Answer (List OutboxMessage)
  pub flags : PipelineFlags
  pub max_attempts : ℕ
  pub retry_base_delay : ℕ
  pub lease_duration : ℕ
  pub payload_ttl_days : ℕ
  pub clock : ℕ → CommitTimes
  pub others : ℕ → Database → Database
  pub failed_at : ℕ
  pub dead_letter_id : ℕ

-- The variables of an attempt, which keep their values where an exception is caught.
pub record Running (R : Type 0) : Type 0 where
  pub database : Database
  pub calls : ℕ
  pub lease : InboxLease
  pub active_stage : MetricStage
  pub stage_metrics : List StageMetric
  pub model_unmapped : Bool
  pub reported : Option R

-- A statement with an exception over these variables.
abbrev pub M : Type 0 → Type 0 → Type 0
M R B = Running R → Answer B × Running R

abbrev pub bound : {R B C : Type 0} → Answer B × Running R → (B → M R C) → Answer C × Running R
bound (ok b, t) f = f b t
bound (thrown e, t) f = (thrown e, t)

infixl 5 ◌>>=◌ ◌>>◌
unfoldable pub ◌>>=◌ : {R B C : Type 0} → M R B → (B → M R C) → M R C
◌>>=◌ m f t = bound (m t) f

unfoldable pub ◌>>◌ : {R C : Type 0} → M R (Unit {0}) → M R C → M R C
◌>>◌ m k t = bound (m t) (λ _. k)

abbrev pub pure : {R B : Type 0} → B → M R B
pure b t = (ok b, t)

abbrev pub lift : {R B : Type 0} → Answer B → M R B
lift answer t = (answer, t)

abbrev pub enter : {R : Type 0} → MetricStage → M R (Unit {0})
enter stage t = (ok tt, record t { active_stage = stage })

abbrev pub measure : {R : Type 0} → Bool → MetricStage → M R (Unit {0})
measure false stage t = (ok tt, t)
measure true stage t = (
  ok tt,
  record t {
    stage_metrics =
        record_stage_metric (record { stage = stage; status = MetricStatus.completed })
          t.stage_metrics;
  },
)

abbrev pub take_lease : {R : Type 0} → InboxLease → M R (Unit {0})
take_lease lease t = (ok tt, record t { lease = lease })

abbrev pub note_unmapped : {R : Type 0} → Bool → M R (Unit {0})
note_unmapped false t = (ok tt, t)
note_unmapped true t = (ok tt, record t { model_unmapped = true })

abbrev later : {R : Type 0} → Option R → Option R → Option R
later old none = old
later old (some report) = some report

abbrev pub note_report : {R : Type 0} → Option R → M R (Unit {0})
note_report report t = (ok tt, record t { reported = later t.reported report })

abbrev pub is_unmapped : ResolutionStatus → Bool
is_unmapped ResolutionStatus.unmapped = true
is_unmapped ResolutionStatus.conflict = true
is_unmapped ResolutionStatus.matched = false
is_unmapped ResolutionStatus.disabled = false

abbrev pub wants : (ReplayIntent → Bool) → Bool → Option ReplayIntent → Bool
wants of_intent flag none = flag
wants of_intent flag (some intent) = of_intent intent

abbrev pub is_replay : Option ReplayIntent → Bool
is_replay none = false
is_replay (some intent) = true
