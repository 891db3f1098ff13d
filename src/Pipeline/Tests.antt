-- ===== src/Pipeline/Tests.antt =====
-- An inbox with one row, which a worker holds.
use token_pilot.Base.{
  ℕ, ◌≡◌, ◌≤◌, ◌*◌, refl, true, Option, none, some, [], ◌∷◌, ◌==◌, if◌then◌else◌,
}
use native.Mathlib.Decide.{ℕ_discrete}
use token_pilot.Base.Table.{put, put_self, put_ne}
use token_pilot.Pipeline.{PipelineStage, InboxStatus, InboxRow, InboxLease, RegistryRow, Database}
use token_pilot.Pipeline.Errors.{min, retry_delay_ms}
use token_pilot.Pipeline.Delay.{retry_delay_ms-doubles}
use token_pilot.Pipeline.Inbox.{
  Answer, ok, thrown, owns, owned_of, owned_row, registry_of, update_registry, map_lease,
}
use token_pilot.Pipeline.Inbox.Calls.{
  advance_row, advance_owned, advance, commit_official, commit_locked, complete, complete_owned,
}
use token_pilot.Pipeline.Once.{Counted, Consistent, InSync}
use token_pilot.Pipeline.Interleaving.{World, Step, Reach, Inv}
use token_pilot.Pipeline.Interleaving.Safety.{Reach-Counted}
use token_pilot.Pipeline.Attempt.{
  Surroundings, ResolutionStatus, OutcomeStatus, ◌>>=◌, ◌>>◌, record_stage_metric,
}
use token_pilot.Pipeline.Processor.{
  process, after_body, attempt_body, run_stages, advance_if_needed, checkpoint_to, call_store,
  take_checkpoint, resolve, cost_artifact, aiu_enabled, aiu_artifact, quota_artifact,
  commit_if_needed, commit_call, commit_context, take_commit, complete_call,
}

retry_delay_ms-doubles_example :
    (retry_delay_ms 1 1000 300000 ≡ min 300000 1000)
    × ((retry_delay_ms 3 1000 300000 ≤ 300000)
        × ((1 ≤ 3
              → 3 ≤ 20
              → retry_delay_ms 4 1000 300000 ≡ min 300000 (2 * retry_delay_ms 3 1000 300000))
            × (21 ≤ 3 → retry_delay_ms 4 1000 300000 ≡ retry_delay_ms 3 1000 300000)))
retry_delay_ms-doubles_example = retry_delay_ms-doubles 3 1000 300000

abbrev row : InboxRow
row = record {
  id = 1;
  application_id = 7;
  event_id = 21;
  payload = some 400;
  status = InboxStatus.leased;
  stage = PipelineStage.received;
  attempt_count = 1;
  available_at = 10;
  next_retry_at = none;
  lease_owner = some 50;
  lease_expires_at = some 2000;
  last_error = none;
  completed_at = none;
  payload_purge_after = none;
  replay_intent = none;
  created_at = 5;
}

abbrev entry : RegistryRow
entry = record {
  payload_hash = 9;
  event_time = 4;
  processing_stage = PipelineStage.received;
  last_error = none;
}

abbrev database : Database
database = record {
  inbox = put (λ _. none) 1 row;
  registry = λ a. if a == 7 then put (λ _. none) 21 entry else (λ _. none);
  dead_letters = [];
  outbox = [];
  settled = λ _. 0;
}

abbrev lease : InboxLease
lease = record {
  id = 1;
  application_id = 7;
  event_id = 21;
  payload_hash = 9;
  payload = 400;
  stage = PipelineStage.received;
  attempt_count = 1;
  lease_owner = 50;
  lease_expires_at = 2000;
  created_at = 5;
  replay_intent = none;
}

database-Consistent : Consistent database
database-Consistent k r e = elim (ℕ_discrete k 1) [
  | yes at ↦
      let found : put (λ _. none) 1 row 1 ≡ some r = rw at at e in
      let same : row ≡ r = cc (put_self (λ _. none) 1 row) in
      rw (at, ← same) (record { keyed = refl; counted = refl; fitting = refl })
  | no off ↦ cc (put_ne (λ _. none) 1 row k off)
]

lease-InSync : InSync lease database
lease-InSync r e held owner =
    let same : row ≡ r = cc (put_self (λ _. none) 1 row) in rw (← same) refl

-- Every stage makes something, and the clock stands at 100.
abbrev surroundings : Surroundings ℕ ℕ ℕ ℕ
surroundings = record {
  parse = λ payload. ok payload;
  normalize = λ event. ok event;
  resolve_model = λ app usage.
      ok (record { status = ResolutionStatus.matched; model_id = some 3; mapping_fingerprint = 8 });
  rate_provider_cost = λ app usage resolution. ok 1;
  rate_aiu = λ app usage resolution cost. ok 2;
  settle_quota = λ app usage aiu. ok 3;
  disabled_fingerprint = λ event hash. hash;
  write_official = λ context. ok ([], none);
  base_messages = λ context hash. ok (
      record {
        aggregate_type = 1;
        aggregate_id = 21;
        event_type = 2;
        payload = 400;
        idempotency_key = hash;
      }
      ∷ []);
  flags = record {
    usage_pipeline = true;
    model_resolution = true;
    provider_cost = true;
    aiu = true;
    quota = true;
  };
  max_attempts = 8;
  retry_base_delay = 1000;
  lease_duration = 60000;
  payload_ttl_days = 14;
  clock = λ n. record { locked_at = 100; committed_at = 100; outbox_at = 100 };
  others = λ n db. db;
  failed_at = 100;
  dead_letter_id = 60;
}

abbrev world : World
world = record { database = database; held = put (λ _. none) 50 lease }

world-Inv : Inv world
world-Inv = record {
  consistent = database-Consistent;
  owned = λ o l e. held_only o l e (λ m. m.lease_owner ≡ o) (λ at. rw at refl);
  in_sync = λ o l e. held_only o l e (λ m. InSync m database) (λ at. lease-InSync);
}
  where
    held_only :
        (o : ℕ) (l : InboxLease)
        → put (λ _. none) 50 lease o ≡ some l
        → (P : InboxLease → Type 0) → (o ≡ 50 → P lease)
        → P l
    held_only o l e P k = elim (ℕ_discrete o 50) [
      | yes at ↦
          let found : put (λ _. none) 50 lease 50 ≡ some l = rw at at e in
          let same : lease ≡ l = cc (put_self (λ _. none) 50 lease) in rw same at (k at)
      | no off ↦ cc (put_ne (λ _. none) 50 lease o off)
    ]

abbrev normalized_call : Answer (InboxLease × Database)
normalized_call = advance 100 60000 lease PipelineStage.normalized database

abbrev lease_after : Answer (InboxLease × Database) → InboxLease
lease_after (ok (l, db)) = l
lease_after (thrown e) = lease

abbrev database_after : Answer (InboxLease × Database) → Database
database_after (ok (l, db)) = db
database_after (thrown e) = database

normalized_success :
    normalized_call ≡ ok (lease_after normalized_call, database_after normalized_call)
unfolding advance advance_owned advance_row owned_row owned_of owns registry_of update_registry
    map_lease put
normalized_success = refl

abbrev row_after : Option InboxRow → InboxRow
row_after none = row
row_after (some r) = r

found_after :
    (database_after normalized_call).inbox 1
    ≡ some (row_after ((database_after normalized_call).inbox 1))
unfolding advance advance_owned advance_row owned_row owned_of owns registry_of update_registry
    map_lease put
found_after = refl

Reach-Counted_example :
    Counted
      (row_after ((database_after normalized_call).inbox 1)).stage
      ((database_after normalized_call).settled 1)
Reach-Counted_example =
    Reach-Counted ℕ world
      (record {
        database = database_after normalized_call;
        held = put (put (λ _. none) 50 lease) 50 (lease_after normalized_call);
      })
      1 (row_after ((database_after normalized_call).inbox 1)) world-Inv
      (Reach.next Reach.here (
        Step.checkpoints 50 100 60000 PipelineStage.normalized lease (lease_after normalized_call)
          (database_after normalized_call) (put_self (λ _. none) 50 lease) refl refl
          normalized_success))
      found_after

process_completes : (process surroundings lease database).0.status ≡ OutcomeStatus.completed
unfolding process after_body attempt_body run_stages advance_if_needed checkpoint_to call_store
    take_checkpoint ◌>>=◌ ◌>>◌ resolve cost_artifact aiu_enabled aiu_artifact quota_artifact
    commit_if_needed commit_call commit_context take_commit complete_call commit_official
    commit_locked complete complete_owned advance advance_owned advance_row owned_row owned_of owns
    registry_of update_registry map_lease put record_stage_metric
process_completes = refl
