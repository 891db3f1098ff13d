-- ===== src/Pipeline/Processor.antt =====
-- One attempt to process a leased event: process of apps/worker/src/pipeline/processor.ts.
use token_pilot.Base.{
  ℕ, ◌+◌, ◌*◌, Bool, true, false, Option, none, some, [], ◌&&◌, ◌||◌, not, ltb, if◌then◌else◌,
}
use Prim.Native.String.{String}
use token_pilot.Pipeline.{PipelineStage, is_before, InboxLease, Database}
use token_pilot.Pipeline.Errors.{PipelineFailure, classify_pipeline_error, retry_delay_ms}
use token_pilot.Pipeline.Inbox.{Answer, ok, thrown}
use token_pilot.Pipeline.Inbox.Calls.{
  CommitTimes, checkpoint, commit_official, complete, retry, dead_letter,
}
use token_pilot.Pipeline.Attempt.{
  ◌>>◌, ResolutionStatus, Resolution, Artifact, made, MetricStage, MetricStatus,
  record_stage_metric, OutcomeStatus, PipelineOutcome, SettlementContext, Surroundings, Running, M,
  ◌>>=◌, pure, lift, enter, measure, take_lease, note_unmapped, note_report, is_unmapped, wants,
  is_replay,
}

-- An artifact of a stage that is on, and `off` of one that is not.
abbrev if_on : {A : Type 0} → Bool → Answer A → Artifact A → Answer (Artifact A)
if_on false answer off = ok off
if_on true (thrown e) off = thrown e
if_on true (ok a) off = ok (made a)

module _ {E N A R : Type 0} (u : Surroundings E N A R) where
  abbrev pub called : {B : Type 0} → Answer (B × Database) → Running R → Answer B × Running R
  called (thrown e) t = (thrown e, t)
  called (ok (b, db)) t = (ok b, record t { database = db })

  -- What the other workers do comes before a call.
  abbrev pub arrived : Running R → Running R
  arrived t = record t { database = u.others t.calls t.database; calls = t.calls + 1 }

  -- A call of the store for the lease of the attempt.
  unfoldable pub call_store :
      {B : Type 0} → (CommitTimes → InboxLease → Database → Answer (B × Database)) → M R B
  call_store f t = let t' = arrived t in called (f (u.clock t.calls) t'.lease t'.database) t'

  unfoldable pub checkpoint_to : PipelineStage → M R InboxLease
  checkpoint_to target =
      call_store (λ at lease db. checkpoint at.locked_at u.lease_duration lease target db)

  unfoldable pub take_checkpoint : MetricStage → InboxLease → M R Bool
  take_checkpoint stage lease = do take_lease lease; measure true stage; pure true

  -- `advanceIfNeeded`, and the metric of the stage.
  unfoldable pub advance_if_needed : PipelineStage → MetricStage → M R Bool
  advance_if_needed target stage t =
      if is_before t.lease.stage target
      then (checkpoint_to target >>= take_checkpoint stage) t
      else (ok false, t)

  unfoldable pub disabled_resolution : InboxLease → Resolution
  disabled_resolution lease = record {
    status = ResolutionStatus.disabled;
    model_id = none;
    mapping_fingerprint = u.disabled_fingerprint lease.event_id lease.payload_hash;
  }

  unfoldable pub resolve : InboxLease → N → Answer Resolution
  resolve lease usage =
      if u.flags.model_resolution || is_replay lease.replay_intent
      then u.resolve_model lease.application_id usage
      else ok (disabled_resolution lease)

  unfoldable pub cost_artifact : InboxLease → N → Resolution → Answer (Artifact A)
  cost_artifact lease usage resolution =
      if_on
        (wants (λ intent. intent.rerates_provider_cost) u.flags.provider_cost lease.replay_intent)
        (u.rate_provider_cost lease.application_id usage resolution) Artifact.disabled

  unfoldable pub aiu_enabled : InboxLease → Bool
  aiu_enabled lease = wants (λ intent. intent.backfills_aiu) u.flags.aiu lease.replay_intent

  unfoldable pub aiu_artifact : InboxLease → N → Resolution → Artifact A → Answer (Artifact A)
  aiu_artifact lease usage resolution cost =
      if_on (aiu_enabled lease) (u.rate_aiu lease.application_id usage resolution cost)
        Artifact.disabled

  -- A replay keeps the quota as it is.
  unfoldable pub quota_artifact : Bool → InboxLease → N → Artifact A → Answer (Artifact A)
  quota_artifact is_on lease usage aiu =
      if_on (is_on && (u.flags.quota && not (is_replay lease.replay_intent)))
        (u.settle_quota lease.application_id usage aiu) Artifact.not_applicable

  unfoldable pub commit_context :
      InboxLease
      → E
      → N
      → Resolution
      → Artifact A
      → Artifact A
      → Artifact A
      → SettlementContext E N A
  commit_context lease event usage resolution cost aiu quota = record {
    application_id = lease.application_id;
    event = event;
    normalized_usage = usage;
    resolution = resolution;
    provider_cost = cost;
    aiu = aiu;
    quota = quota;
    replay_intent = lease.replay_intent;
  }

  unfoldable pub commit_call : SettlementContext E N A → M R (InboxLease × Option R)
  commit_call context = call_store (λ at lease db.
      commit_official at u.lease_duration lease context.application_id (u.write_official context)
        (u.base_messages context lease.payload_hash) db)

  -- `is_first` says that the commit itself was still to come, too.
  unfoldable pub take_commit : Bool → InboxLease × Option R → M R (Unit {0})
  take_commit is_first done = do
    take_lease done.0
    measure is_first MetricStage.official_commit
    measure true MetricStage.outbox
    note_report done.1

  -- A row that has no outbox messages yet is committed.
  unfoldable pub commit_if_needed : SettlementContext E N A → M R (Unit {0})
  commit_if_needed context t =
      if is_before t.lease.stage PipelineStage.outbox_created
      then (commit_call context
            >>= take_commit (is_before t.lease.stage PipelineStage.official_committed))
          t
      else (ok tt, t)

  unfoldable pub complete_call : M R (Unit {0})
  complete_call = call_store (λ at lease db. complete at.locked_at u.payload_ttl_days lease db)

  abbrev pub lease_of : M R InboxLease
  lease_of t = (ok t.lease, t)

  -- The stages from the parsed event on.
  unfoldable pub run_stages : E → N → M R (Unit {0})
  run_stages event usage = do
    _ ← advance_if_needed PipelineStage.normalized MetricStage.normalization
    enter MetricStage.model_resolution
    lease1 ← lease_of
    resolution ← lift (resolve lease1 usage)
    resolved ← advance_if_needed PipelineStage.model_resolved MetricStage.model_resolution
    note_unmapped (resolved && is_unmapped resolution.status)
    enter MetricStage.provider_cost
    lease2 ← lease_of
    cost ← lift (cost_artifact lease2 usage resolution)
    _ ← advance_if_needed PipelineStage.provider_cost_rated MetricStage.provider_cost
    enter MetricStage.aiu
    lease3 ← lease_of
    aiu ← lift (aiu_artifact lease3 usage resolution cost)
    _ ← advance_if_needed PipelineStage.aiu_rated MetricStage.aiu
    enter MetricStage.quota
    lease4 ← lease_of
    quota ← lift (quota_artifact (aiu_enabled lease3) lease4 usage aiu)
    _ ← advance_if_needed PipelineStage.quota_settled MetricStage.quota
    enter MetricStage.official_commit
    lease5 ← lease_of
    commit_if_needed (commit_context lease5 event usage resolution cost aiu quota)
    enter MetricStage.outbox
    complete_call

  unfoldable pub attempt_body : M R (Unit {0})
  attempt_body = do
    lease ← lease_of
    event ← lift (u.parse lease.payload)
    usage ← lift (u.normalize event)
    run_stages event usage

  abbrev finished : OutcomeStatus → PipelineStage → Option String → Running R → PipelineOutcome R
  finished status stage code t = record {
    event_id = t.lease.event_id;
    status = status;
    stage = stage;
    stage_metrics = t.stage_metrics;
    model_unmapped = t.model_unmapped;
    reported = t.reported;
    error_code = code;
  }

  abbrev marked : MetricStatus → Running R → Running R
  marked status t = record t {
    stage_metrics =
        record_stage_metric (record { stage = t.active_stage; status = status }) t.stage_metrics;
  }

  -- The failure could not be stored.
  abbrev unstored : Running R → PipelineOutcome R × Database
  unstored t = (
    finished OutcomeStatus.failed t.lease.stage (some "PIPELINE_FAILURE_PERSISTENCE_FAILED")
        (marked MetricStatus.failed t),
    t.database,
  )

  unfoldable pub after_retry :
      PipelineFailure → Answer (Unit {0}) × Running R → PipelineOutcome R × Database
  after_retry failure (thrown e, t) = unstored t
  after_retry failure (ok x, t) = (
    finished OutcomeStatus.retry_scheduled t.lease.stage (some failure.code)
        (marked MetricStatus.retry t),
    t.database,
  )

  unfoldable pub after_dead_letter :
      PipelineFailure → Answer (Unit {0}) × Running R → PipelineOutcome R × Database
  after_dead_letter failure (thrown e, t) = unstored t
  after_dead_letter failure (ok x, t) = (
    finished OutcomeStatus.dead_lettered PipelineStage.dead_letter (some failure.code)
        (marked MetricStatus.dead_letter t),
    t.database,
  )

  unfoldable pub exhausted : PipelineFailure → PipelineFailure
  exhausted failure =
      if failure.is_retryable
      then record failure { code = "PIPELINE_RETRY_EXHAUSTED"; is_retryable = false }
      else failure

  -- Instants are in microseconds, delays in milliseconds.
  unfoldable pub retry_at : InboxLease → ℕ
  retry_at lease = u.failed_at + retry_delay_ms lease.attempt_count u.retry_base_delay 300000 * 1000

  unfoldable pub retry_call : PipelineFailure → M R (Unit {0})
  retry_call failure =
      call_store (λ at lease db. retry at.locked_at lease failure (retry_at lease) db)

  unfoldable pub dead_letter_call : PipelineFailure → M R (Unit {0})
  dead_letter_call failure =
      call_store (λ at lease db. dead_letter at.locked_at u.dead_letter_id lease failure db)

  -- The catch of an attempt.
  unfoldable pub handle_failure : PipelineFailure → Running R → PipelineOutcome R × Database
  handle_failure failure t =
      if failure.is_retryable && ltb t.lease.attempt_count u.max_attempts
      then after_retry failure (retry_call failure t)
      else after_dead_letter (exhausted failure) (dead_letter_call (exhausted failure) t)

  unfoldable pub after_body : Answer (Unit {0}) × Running R → PipelineOutcome R × Database
  after_body (ok x, t) =
      (finished OutcomeStatus.completed PipelineStage.completed none t, t.database)
  after_body (thrown e, t) = handle_failure (classify_pipeline_error e) t

  abbrev pub started : InboxLease → Database → Running R
  started lease db = record {
    database = db;
    calls = 0;
    lease = lease;
    active_stage = MetricStage.normalization;
    stage_metrics = [];
    model_unmapped = false;
    reported = none;
  }

  unfoldable pub process : InboxLease → Database → PipelineOutcome R × Database
  process lease db = after_body (attempt_body (started lease db))
