-- ===== src/Reconciliation/Tests.antt =====
-- Two snapshots of one key that agree, an hourly run, and a replay that charges.
use token_pilot.Base.{ℕ, ◌+◌, ◌-◌, ◌≡◌, ◌↔◌, refl, true, false, none, some, [], ◌∷◌, ltb, All}
use token_pilot.Reconciliation.{Costs, Row, Tolerance, Watermark, reconcile_snapshots, keys_of}
use token_pilot.Reconciliation.Clean.{KeyClean}
use token_pilot.Reconciliation.Keys.{Current, reconcile_snapshots-KeyClean}
use token_pilot.Reconciliation.Plans.{
  RunPlan, hourly, plan_reconciliation_run, plan_dates, Runnable, plan_reconciliation_run-Runnable,
}
use token_pilot.Reconciliation.Replay.{
  ReplayInput, replay_plan, rerun_aiu_observe, still_enabled, plan_replay, plan_range, plan_covered,
  covered_by, Replayable, plan_replay-Replayable,
}

abbrev micros : Costs
micros = record { D = ℕ; minus = λ x y. x - y + (y - x); abs = λ x. x; above = λ x y. ltb y x }

abbrev hour_row : Row micros
hour_row = record {
  key = 3;
  metrics = record { usage = λ k. 7; aiu_micros = 40; provider_cost = 900 };
  duplicates = 0;
  payload_hash_conflict = false;
  model_identity = some 5;
  cost_version = none;
  aiu_version = some 2;
  official_delta_pending = false;
  late_events = 0;
  unprojected_adjustments = 0;
  sample_event_ids = 11 ∷ [];
}

abbrev tolerance : Tolerance micros
tolerance = record { provider_cost = 10; aiu_micros = 1; watermark_stall_seconds = 60 }

abbrev watermark : Watermark micros tolerance
watermark = record {
  pg_event_time = 900;
  ch_event_time = 800;
  ch_last_success_at = 100;
  now = 70000;
}

reconcile_snapshots-KeyClean_example :
    (reconcile_snapshots micros tolerance (hour_row ∷ []) (hour_row ∷ []) (some watermark) ≡ []) ↔ (
      All
        (KeyClean micros tolerance (hour_row ∷ []) (hour_row ∷ []))
        (keys_of micros tolerance (hour_row ∷ []))
      × All
          (KeyClean micros tolerance (hour_row ∷ []) (hour_row ∷ []))
          (keys_of micros tolerance (hour_row ∷ []))
      × Current micros tolerance (hour_row ∷ []) (hour_row ∷ []) (some watermark))
reconcile_snapshots-KeyClean_example =
    reconcile_snapshots-KeyClean micros tolerance (hour_row ∷ []) (hour_row ∷ []) (some watermark)

abbrev hourly_plan : RunPlan
hourly_plan = record { type = hourly; start = 7200000; end = 10800000; asynchronous = true }

plan_reconciliation_run-Runnable_example : Runnable hourly_plan
unfolding plan_reconciliation_run plan_dates
plan_reconciliation_run-Runnable_example =
    plan_reconciliation_run-Runnable hourly (some 7200000) (some 10800000)
      (record { length = 36; trimmed = 36 }) hourly_plan refl

abbrev replay_input : ReplayInput
replay_input = record {
  type = rerun_aiu_observe;
  start = some 100;
  end = some 200;
  dry_run = some false;
  reason = some (record { length = 20; trimmed = 18 });
  requested_by = some (record { length = 4; trimmed = 4 });
  cost_effects = false;
  aiu_effects = true;
  would_create_aiu_ledger = true;
  intervals = record { start = some 50; end = still_enabled } ∷ [];
}

plan_replay-Replayable_example : Replayable replay_input (replay_plan replay_input 100 200 true)
unfolding plan_replay plan_range plan_covered covered_by
plan_replay-Replayable_example =
    plan_replay-Replayable replay_input (replay_plan replay_input 100 200 true) refl
