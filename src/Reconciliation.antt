-- ===== src/Reconciliation.antt =====
-- Comparing the official aggregates of PostgreSQL with the projection in ClickHouse:
-- packages/reconciliation-engine/src/reconciler.ts and metrics.ts. The integers and instants that the
-- code reads from text are numbers here, a dimension key is a number, and decimal.js is a parameter.
pub mod Plans
pub mod Replay
pub mod Clean
pub mod Keys
mod Tests
use token_pilot.Base.{
  ℕ, ◌+◌, ◌-◌, ◌*◌, Bool, true, false, Option, none, some, List, [], ◌∷◌, ◌++◌, ◌&&◌, ◌||◌, not,
  ◌==◌, ltb, if◌then◌else◌, keep, includes, length, take, same_option,
}
use token_pilot.Base.Int.{ℤ, pos, ◌-ℤ◌, eqb_ℤ}
use token_pilot.Base.Sort.{sort_by}

pub data DiffType : Type 0 where
  ch_missing pg_missing duplicate_projection payload_hash_conflict : DiffType
  usage_normalization_mismatch model_identity_mismatch price_version_mismatch : DiffType
  aiu_rate_version_mismatch provisional_official_delta_pending : DiffType
  ledger_projection_missing late_event adjustment_not_projected watermark_stalled : DiffType

pub data Severity : Type 0 where
  info warning error critical : Severity

unfoldable pub severity_of : DiffType → Severity
severity_of ch_missing = error
severity_of pg_missing = warning
severity_of duplicate_projection = error
severity_of payload_hash_conflict = critical
severity_of usage_normalization_mismatch = error
severity_of model_identity_mismatch = error
severity_of price_version_mismatch = error
severity_of aiu_rate_version_mismatch = error
severity_of provisional_official_delta_pending = warning
severity_of ledger_projection_missing = critical
severity_of late_event = info
severity_of adjustment_not_projected = critical
severity_of watermark_stalled = critical

-- `usageMetricKeys`, in their order.
pub data UsageKey : Type 0 where
  event_count input_tokens cached_input_tokens output_tokens unpriced_count unrated_count : UsageKey

abbrev pub usage_keys : List UsageKey
usage_keys =
    event_count ∷ input_tokens ∷ cached_input_tokens ∷ output_tokens ∷ unpriced_count
    ∷ unrated_count ∷ []

-- The operations of decimal.js on costs: `minus`, `abs` and `gt`.
pub record Costs : Type 1 where
  pub D : Type 0
  pub minus : D → D → D
  pub abs : D → D
  pub above : D → D → Bool

module _ (costs : Costs) where
  pub record Metrics : Type 0 where
    pub usage : UsageKey → ℕ
    pub aiu_micros : ℕ
    pub provider_cost : costs.D

  pub record Row : Type 0 where
    pub key : ℕ
    pub metrics : Metrics
    pub duplicates : ℕ
    pub payload_hash_conflict : Bool
    pub model_identity : Option ℕ
    pub cost_version : Option ℕ
    pub aiu_version : Option ℕ
    pub official_delta_pending : Bool
    pub late_events : ℕ
    pub unprojected_adjustments : ℕ
    pub sample_event_ids : List ℕ

  pub record Diff : Type 0 where
    pub type : DiffType
    pub severity : Severity
    pub key : Option ℕ
    pub count : ℕ
    pub pg_values : Option Metrics
    pub ch_values : Option Metrics
    pub usage_delta : List (UsageKey × ℤ)
    pub aiu_delta : Option ℤ
    pub cost_delta : Option costs.D
    pub amount : Option costs.D
    pub samples : List ℕ

  pub record Tolerance : Type 0 where
    pub provider_cost : costs.D
    pub aiu_micros : ℕ
    pub watermark_stall_seconds : ℕ

  abbrev pub add_once : ℕ → List ℕ → List ℕ
  add_once x xs = if includes x xs then xs else x ∷ xs

  unfoldable pub unique : List ℕ → List ℕ
  unique [] = []
  unique (x ∷ xs) = add_once x (unique xs)

  abbrev pub ids_of : Option Row → List ℕ
  ids_of none = []
  ids_of (some r) = r.sample_event_ids

  -- `samples`, with the identifiers in the order of their texts.
  unfoldable pub samples_of : Option Row → Option Row → List ℕ
  samples_of pg ch = take 100 (sort_by ltb (unique (ids_of pg ++ ids_of ch)))

  abbrev pub distance : ℕ → ℕ → ℕ
  distance a b = a - b + (b - a)

  abbrev pub events_of : Option Row → ℕ
  events_of none = 0
  events_of (some r) = r.metrics.usage event_count

  abbrev pub count_delta : Option Row → Option Row → ℕ
  count_delta pg ch = distance (events_of pg) (events_of ch)

  abbrev pub metrics_of : Option Row → Option Metrics
  metrics_of none = none
  metrics_of (some r) = some r.metrics

  -- `diff`, whose defaults the callers write out.
  abbrev pub diff : DiffType → Option ℕ → Option Row → Option Row → ℕ → Diff
  diff type key pg ch count = record {
    type = type;
    severity = severity_of type;
    key = key;
    count = count;
    pg_values = metrics_of pg;
    ch_values = metrics_of ch;
    usage_delta = [];
    aiu_delta = none;
    cost_delta = none;
    amount = none;
    samples = samples_of pg ch;
  }

  -- `output.push` under a condition.
  unfoldable pub when : Bool → Diff → List Diff → List Diff
  when b d rest = if b then d ∷ rest else rest

  unfoldable pub usage_deltas : List UsageKey → Metrics → Metrics → List (UsageKey × ℤ)
  usage_deltas [] pg ch = []
  usage_deltas (k ∷ ks) pg ch =
      let rest = usage_deltas ks pg ch in
      if pg.usage k == ch.usage k then rest else (k, pos (pg.usage k) -ℤ pos (ch.usage k)) ∷ rest

  abbrev pub is_nil : List (UsageKey × ℤ) → Bool
  is_nil [] = true
  is_nil (d ∷ ds) = false

  abbrev pub cost_type : Row → Row → DiffType
  cost_type pg ch =
      if pg.official_delta_pending || ch.official_delta_pending
      then provisional_official_delta_pending
      else ledger_projection_missing

  abbrev pub cost_delta_of : Row → Row → costs.D
  cost_delta_of pg ch = costs.minus pg.metrics.provider_cost ch.metrics.provider_cost

  module _ (tolerance : Tolerance) where
    abbrev pub cost_differs : Row → Row → Bool
    cost_differs pg ch = costs.above (costs.abs (cost_delta_of pg ch)) tolerance.provider_cost

    abbrev pub aiu_differs : Row → Row → Bool
    aiu_differs pg ch =
        ltb tolerance.aiu_micros (distance pg.metrics.aiu_micros ch.metrics.aiu_micros)

    unfoldable pub paired_diffs : Row → Row → List Diff
    paired_diffs pg ch =
        let key = some pg.key in
        let deltas = usage_deltas usage_keys pg.metrics ch.metrics in
        let plain : DiffType → ℕ → Diff = λ type count. diff type key (some pg) (some ch) count in
        when (pg.payload_hash_conflict || ch.payload_hash_conflict) (plain payload_hash_conflict 1)
          (when (not (same_option pg.model_identity ch.model_identity))
            (plain model_identity_mismatch 1)
            (when (not (same_option pg.cost_version ch.cost_version))
              (plain price_version_mismatch 1)
              (when (not (same_option pg.aiu_version ch.aiu_version))
                (plain aiu_rate_version_mismatch 1)
                (when (not (is_nil deltas))
                  (record (plain usage_normalization_mismatch (count_delta (some pg) (some ch))) {
                    usage_delta = deltas;
                  })
                  (when (cost_differs pg ch)
                    (record (plain (cost_type pg ch) (count_delta (some pg) (some ch))) {
                      cost_delta = some (cost_delta_of pg ch);
                      amount = some (costs.abs (cost_delta_of pg ch));
                    })
                    (when (aiu_differs pg ch)
                      (record (plain ledger_projection_missing (count_delta (some pg) (some ch))) {
                        aiu_delta = some (pos pg.metrics.aiu_micros -ℤ pos ch.metrics.aiu_micros);
                      })
                      (when (ltb 0 pg.late_events) (plain late_event pg.late_events) (
                        when (ltb 0 pg.unprojected_adjustments)
                          (plain adjustment_not_projected pg.unprojected_adjustments) []))))))))

    abbrev pub has_key : ℕ → Row → Bool
    has_key k r = r.key == k

    abbrev pub first_row : List Row → Option Row
    first_row [] = none
    first_row (r ∷ rs) = some r

    unfoldable pub sum_duplicates : List Row → ℕ
    sum_duplicates [] = 0
    sum_duplicates (r ∷ rs) = r.duplicates + sum_duplicates rs

    abbrev pub duplicate_count : List Row → List Row → ℕ
    duplicate_count pg ch = length pg - 1 + (length ch - 1) + sum_duplicates (pg ++ ch)

    -- The rows of one key, on the two sides.
    unfoldable pub sides : ℕ → Option Row → Option Row → List Diff
    sides k none ch = diff pg_missing (some k) none ch (count_delta none ch) ∷ []
    sides k (some pg) none =
        diff ch_missing (some k) (some pg) none (count_delta (some pg) none) ∷ []
    sides k (some pg) (some ch) = paired_diffs pg ch

    unfoldable pub key_diffs : ℕ → List Row → List Row → List Diff
    key_diffs k pg ch =
        when (ltb 0 (duplicate_count pg ch))
          (diff duplicate_projection (some k) (first_row pg) (first_row ch) (duplicate_count pg ch))
          (sides k (first_row pg) (first_row ch))

    unfoldable pub keys_diffs : List ℕ → List Row → List Row → List Diff
    keys_diffs [] pg ch = []
    keys_diffs (k ∷ ks) pg ch =
        key_diffs k (keep (has_key k) pg) (keep (has_key k) ch) ++ keys_diffs ks pg ch

    unfoldable pub keys_of : List Row → List ℕ
    keys_of [] = []
    keys_of (r ∷ rs) = r.key ∷ keys_of rs

    pub record Watermark : Type 0 where
      pub pg_event_time : ℕ
      pub ch_event_time : ℕ
      pub ch_last_success_at : ℕ
      pub now : ℕ

    abbrev pub is_stalled : Watermark → Bool
    is_stalled w =
        ltb w.ch_event_time w.pg_event_time
        && ltb (w.ch_last_success_at + tolerance.watermark_stall_seconds * 1000) w.now

    unfoldable pub watermark_diffs : Option Watermark → List Diff
    watermark_diffs none = []
    watermark_diffs (some w) = when (is_stalled w) (diff watermark_stalled none none none 1) []

    unfoldable pub reconcile_snapshots : List Row → List Row → Option Watermark → List Diff
    reconcile_snapshots pg ch watermark =
        keys_diffs (sort_by ltb (unique (keys_of pg ++ keys_of ch))) pg ch
        ++ watermark_diffs watermark
