-- ===== src/Reconciliation/Replay.antt =====
-- Planning a replay: `planReplay` of packages/reconciliation-engine/src/replay.ts.
use token_pilot.Base.{
  ℕ, ◌≤◌, ◌<◌, ◌≡◌, refl, Bool, true, false, Option, none, some, List, [], ◌∷◌, ◌&&◌, ◌||◌, not,
  ltb, leb, ◌==◌, arith, if◌then◌else◌, inl, inr, Bool-cases,
}
use token_pilot.Reconciliation.Plans.{
  date_invalid, range_empty, reason_required, actor_required, interval_uncovered, Planned, planned,
  refused, refused_if, Text,
}

pub data ReplayType : Type 0 where
  reproject_to_clickhouse rerun_provider_cost rerun_aiu_observe rebuild_quota_projection :
      ReplayType

abbrev pub is_provider_cost : ReplayType → Bool
is_provider_cost rerun_provider_cost = true
is_provider_cost _ = false

abbrev pub is_aiu_observe : ReplayType → Bool
is_aiu_observe rerun_aiu_observe = true
is_aiu_observe _ = false

-- The end of an interval may be absent, which is the last instant that a date can hold.
pub data IntervalEnd : Type 0 where
  still_enabled : IntervalEnd
  ended : Option ℕ → IntervalEnd

pub record Interval : Type 0 where
  pub start : Option ℕ
  pub end : IntervalEnd

pub record ReplayInput : Type 0 where
  pub type : ReplayType
  pub start : Option ℕ
  pub end : Option ℕ
  pub dry_run : Option Bool
  pub reason : Option Text
  pub requested_by : Option Text
  pub cost_effects : Bool
  pub aiu_effects : Bool
  pub would_create_aiu_ledger : Bool
  pub intervals : List Interval

-- Of the reason, which is trimmed, the length is kept; a dry run has neither reason nor actor.
pub record ReplayPlan : Type 0 where
  pub type : ReplayType
  pub start : ℕ
  pub end : ℕ
  pub dry_run : Bool
  pub reason : Option ℕ
  pub requested_by : Option Text
  pub cost_reversal : Bool
  pub aiu_adjustment : Bool
  pub historical_charge : Bool

abbrev pub last_instant : ℕ
last_instant = 8640000000000000

abbrev pub end_of : IntervalEnd → Option ℕ
end_of still_enabled = some last_instant
end_of (ended date) = date

abbrev pub covers : ℕ → ℕ → ℕ → ℕ → Bool
covers from to start end = leb start from && leb to end

-- `intervals.some(...)`, whose callback throws on a text that is not a date.
unfoldable pub covered_by : ℕ → ℕ → List Interval → Planned Bool
covered_by from to [] = planned false
covered_by from to (i ∷ is) =
    let rest = covered_by from to is in
    elim i.start [
      | none ↦ refused date_invalid
      | some start ↦ elim (end_of i.end) [
        | none ↦ refused date_invalid
        | some end ↦ if covers from to start end then planned true else rest
      ]
    ]

abbrev pub dry : Option Bool → Bool
dry none = true
dry (some b) = b

abbrev pub bad_reason : Option Text → Bool
bad_reason none = true
bad_reason (some t) = ltb t.trimmed 5 || ltb 500 t.length

abbrev pub bad_actor : Option Text → Bool
bad_actor none = true
bad_actor (some t) = t.trimmed == 0

abbrev pub trimmed_length : Option Text → Option ℕ
trimmed_length none = none
trimmed_length (some t) = some t.trimmed

abbrev pub if_committed : {A : Type 0} → Bool → Option A → Option A
if_committed true o = none
if_committed false o = o

abbrev pub replay_plan : ReplayInput → ℕ → ℕ → Bool → ReplayPlan
replay_plan input from to coverage = record {
  type = input.type;
  start = from;
  end = to;
  dry_run = dry input.dry_run;
  reason = if_committed (dry input.dry_run) (trimmed_length input.reason);
  requested_by = if_committed (dry input.dry_run) input.requested_by;
  cost_reversal = is_provider_cost input.type && input.cost_effects;
  aiu_adjustment = is_aiu_observe input.type && input.aiu_effects;
  historical_charge = input.would_create_aiu_ledger && coverage;
}

unfoldable pub plan_covered : ReplayInput → ℕ → ℕ → Planned Bool → Planned ReplayPlan
plan_covered input from to (refused e) = refused e
plan_covered input from to (planned coverage) =
    if input.would_create_aiu_ledger && not coverage
    then refused interval_uncovered
    else planned (replay_plan input from to coverage)

unfoldable pub plan_range : ReplayInput → ℕ → ℕ → Planned ReplayPlan
plan_range input from to =
    if leb to from
    then refused range_empty
    else if not (dry input.dry_run) && bad_reason input.reason
    then refused reason_required
    else if not (dry input.dry_run) && bad_actor input.requested_by
    then refused actor_required
    else plan_covered input from to (covered_by from to input.intervals)

unfoldable pub plan_replay : ReplayInput → Planned ReplayPlan
plan_replay input = elim input.start [
  | none ↦ refused date_invalid
  | some from ↦ elim input.end [ none ↦ refused date_invalid | some to ↦ plan_range input from to ]
]

-- One interval with AIU enabled that has the whole range in it.
pub data Covered (from to : ℕ) : List Interval → Type 0 where
  here :
      {i : Interval} {is : List Interval} {start end : ℕ}
      → i.start ≡ some start
      → end_of i.end ≡ some end
      → start ≤ from
      → to ≤ end
      → Covered from to (i ∷ is)
  there : {i : Interval} {is : List Interval} → Covered from to is → Covered from to (i ∷ is)

covered_by-Covered :
    (from to : ℕ) (is : List Interval) → covered_by from to is ≡ planned true → Covered from to is
unfolding covered_by
covered_by-Covered from to [] h = let h' : planned false ≡ planned true = h in cc
covered_by-Covered from to (i ∷ is) h =
    go (covered_by-Covered from to is) i.start (end_of i.end) refl refl h
  where
    outcome : Option ℕ → Option ℕ → Planned Bool
    outcome o p = elim o [
      | none ↦ refused date_invalid
      | some start ↦ elim p [
        | none ↦ refused date_invalid
        | some end ↦ if covers from to start end then planned true else covered_by from to is
      ]
    ]

    go :
        (covered_by from to is ≡ planned true → Covered from to is)
        → (o p : Option ℕ) → i.start ≡ o
        → end_of i.end ≡ p
        → outcome o p ≡ planned true
        → Covered from to (i ∷ is)
    go later none p es ee h = let h' : refused date_invalid ≡ planned true = h in cc
    go later (some start) none es ee h = let h' : refused date_invalid ≡ planned true = h in cc
    go later (some start) (some end) es ee h = elim (Bool-cases (covers from to start end)) [
      | inl inside ↦ here es ee (ground arith) (ground arith)
      | inr outside ↦ there (later (rw outside at h))
    ]

-- The reason and the actor that a plan carries: none for a dry run, else those of the input.
pub data Accounted (input : ReplayInput) (p : ReplayPlan) : Type 0 where
  rehearsed : p.dry_run ≡ true → p.reason ≡ none → p.requested_by ≡ none → Accounted input p
  justified :
      (reason actor : Text)
      → p.dry_run ≡ false
      → input.reason ≡ some reason
      → 5 ≤ reason.trimmed
      → reason.length ≤ 500
      → p.reason ≡ some reason.trimmed
      → input.requested_by ≡ some actor
      → 1 ≤ actor.trimmed
      → p.requested_by ≡ some actor
      → Accounted input p

pub record Replayable (input : ReplayInput) (p : ReplayPlan) : Type 0 where
  pub ordered : p.start < p.end
  pub charged_when_asked : p.historical_charge ≡ input.would_create_aiu_ledger
  pub charged_where_enabled : p.historical_charge ≡ true → Covered p.start p.end input.intervals
  pub accounted : Accounted input p

replay_plan-Accounted :
    (input : ReplayInput) (from to : ℕ) (coverage : Bool)
    → (not (dry input.dry_run) && bad_reason input.reason) ≡ false
    → (not (dry input.dry_run) && bad_actor input.requested_by) ≡ false
    → Accounted input (replay_plan input from to coverage)
replay_plan-Accounted input from to coverage reasons actors =
    elim (Bool-cases (dry input.dry_run)) [
      | inl rehearsal ↦ rehearsed rehearsal (rw rehearsal refl) (rw rehearsal refl)
      | inr wet ↦
          let (reason, given, long, short) = reason_given input.reason (rw wet at reasons) in
          let (actor, named, present) = actor_given input.requested_by (rw wet at actors) in
          justified reason actor wet given long short (rw (wet, given) refl) named present
            (rw (wet, named) refl)
    ]
  where
    reason_given :
        (o : Option Text)
        → bad_reason o ≡ false
        → (t : Text) × (o ≡ some t) × (5 ≤ t.trimmed) × (t.length ≤ 500)
    reason_given none h = cc
    reason_given (some t) h = (t, refl, ground arith, ground arith)

    actor_given :
        (o : Option Text) → bad_actor o ≡ false → (t : Text) × (o ≡ some t) × (1 ≤ t.trimmed)
    actor_given none h = cc
    actor_given (some t) h = (t, refl, ground arith)

plan_covered-Replayable :
    (input : ReplayInput) (from to : ℕ) (c : Planned Bool) (p : ReplayPlan)
    → covered_by from to input.intervals ≡ c
    → from < to
    → ((coverage : Bool) → Accounted input (replay_plan input from to coverage))
    → plan_covered input from to c ≡ planned p
    → Replayable input p
unfolding plan_covered
plan_covered-Replayable input from to (refused e) p at before account h =
    let h' : refused e ≡ planned p = h in cc
plan_covered-Replayable input from to (planned coverage) p at before account h =
    let (allowed, h1) =
      refused_if (input.would_create_aiu_ledger && not coverage) interval_uncovered _ p h in
    let same : replay_plan input from to coverage ≡ p = cc in
    rw (← same) (record {
      ordered = before;
      charged_when_asked = charged input.would_create_aiu_ledger coverage allowed;
      charged_where_enabled = λ charges.
          let covered : coverage ≡ true = ground arith in
          covered_by-Covered from to input.intervals (rw covered at at);
      accounted = account coverage;
    })
  where
    charged : (a b : Bool) → (a && not b) ≡ false → (a && b) ≡ a
    charged false b h = refl
    charged true false h = cc
    charged true true h = refl

plan_range-Replayable :
    (input : ReplayInput) (from to : ℕ) (p : ReplayPlan)
    → plan_range input from to ≡ planned p
    → Replayable input p
unfolding plan_range
plan_range-Replayable input from to p h =
    let (b1, h1) = refused_if (leb to from) range_empty _ p h in
    let (b2, h2) =
      refused_if (not (dry input.dry_run) && bad_reason input.reason) reason_required _ p h1 in
    let (b3, h3) =
      refused_if (not (dry input.dry_run) && bad_actor input.requested_by) actor_required _ p h2 in
    plan_covered-Replayable input from to (covered_by from to input.intervals) p refl (ground arith)
      (λ coverage. replay_plan-Accounted input from to coverage b2 b3) h3

-- A replay that is planned covers a range that is not empty. It may charge AIU when the input says
-- that it would, and only where one interval with AIU enabled has the whole range in it. A dry run
-- carries no reason and no actor; any other plan carries those of the input: a reason of 5 characters
-- or more once trimmed and of at most 500, and an actor that is not blank.
pub plan_replay-Replayable :
    (input : ReplayInput) (p : ReplayPlan) → plan_replay input ≡ planned p → Replayable input p
unfolding plan_replay
plan_replay-Replayable input p h = go input.start input.end h
  where
    go :
        (start end : Option ℕ)
        → (elim start [
          | none ↦ refused date_invalid
          | some from ↦ elim end [
            | none ↦ refused date_invalid
            | some to ↦ plan_range input from to
          ]
        ])
          ≡ planned p
        → Replayable input p
    go none end h = let h' : refused date_invalid ≡ planned p = h in cc
    go (some from) none h = let h' : refused date_invalid ≡ planned p = h in cc
    go (some from) (some to) h = plan_range-Replayable input from to p h
