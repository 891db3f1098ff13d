-- ===== src/Routing/Simulation.antt =====
-- The simulation of a route in the control API: apps/api/src/virtual-models/route-matches.ts and
-- weighted-route-selection.ts, the order of the candidates in virtual-model.service.ts, and the
-- default route that runtime-configuration/runtime-publication-builder.ts publishes.
pub mod Clocks
pub mod Published
use Prim.Native.Nat.{bit_xor}
use token_pilot.Base.{
  ℕ, zero, ◌+◌, ◌-◌, ◌*◌, ◌/◌, ◌%◌, ◌^◌, Bool, true, false, not, ◌&&◌, ◌||◌, Option, none, some,
  List, [], ◌∷◌, ◌++◌, map, any, find, keep, includes, ltb, leb, ◌==◌, same_option, if◌then◌else◌,
}
use token_pilot.Routing.Matching.{
  Scalar, text, Property, undefined, null, scalar, array, Operator, is_set, is_not_set, equals,
  not_equals, starts_with, contains, Clock, Schedule, Match, override_active, users, user_property,
  call_source, schedule, Target, Route, Context, Local, string_of, same_scalar, has_prefix,
  has_substring,
}
use token_pilot.Routing.{Floats}

-- "HH:MM", as the route has it. The code unit of "0" is 48 and that of ":" is 58.
abbrev pub clock_text : Clock → List ℕ
clock_text c =
    (48 + c.hour / 10) ∷ (48 + c.hour % 10) ∷ 58 ∷ (48 + c.minute / 10) ∷ (48 + c.minute % 10) ∷ []

abbrev pub open_part : ℕ → List (List ℕ) → List (List ℕ)
open_part unit [] = (unit ∷ []) ∷ []
open_part unit (part ∷ parts) = (unit ∷ part) ∷ parts

-- `split(":")`
unfoldable pub split_colon : List ℕ → List (List ℕ)
split_colon [] = [] ∷ []
split_colon (unit ∷ units) =
    let parts = split_colon units in if unit == 58 then [] ∷ parts else open_part unit parts

-- `Number` of a text of digits.
unfoldable pub number_of : ℕ → List ℕ → ℕ
number_of acc [] = acc
number_of acc (unit ∷ units) = number_of (acc * 10 + (unit - 48)) units

abbrev pub hour_minute : List ℕ → ℕ
hour_minute [] = 0
hour_minute (hour ∷ []) = hour * 60
hour_minute (hour ∷ minute ∷ rest) = hour * 60 + minute

unfoldable pub simulated_clock_minute : List ℕ → ℕ
simulated_clock_minute units = hour_minute (map (number_of 0) (split_colon units))

unfoldable pub simulated_schedule_matches : Schedule → Local → Bool
simulated_schedule_matches s local =
    let start = simulated_clock_minute (clock_text s.start) in
    let end = simulated_clock_minute (clock_text s.end) in
    let previous_day = if local.weekday == 1 then 7 else local.weekday - 1 in
    if ltb start end
    then includes local.weekday s.days && (leb start local.minute && ltb local.minute end)
    else if ltb end start
    then includes local.weekday s.days && leb start local.minute
      || includes previous_day s.days && ltb local.minute end
    else false

abbrev pub is_undefined : Property → Bool
is_undefined undefined = true
is_undefined _ = false

abbrev pub is_null : Property → Bool
is_null null = true
is_null _ = false

-- `current === condition.value`
abbrev pub is_same : Property → Scalar → Bool
is_same (scalar s) v = same_scalar s v
is_same _ v = false

abbrev pub is_empty_text : List ℕ → Bool
is_empty_text [] = true
is_empty_text (x ∷ xs) = false

abbrev pub simulated_starts_with : Property → Scalar → Bool
simulated_starts_with (scalar (text s)) v =
    not (is_empty_text (string_of v)) && has_prefix (string_of v) s
simulated_starts_with _ v = false

abbrev pub simulated_contains : Property → Scalar → Bool
simulated_contains (scalar (text s)) v = has_substring (string_of v) s
simulated_contains (array vs) v = any (λ w. same_scalar w v) vs
simulated_contains _ v = false

unfoldable pub simulated_property_matches : Operator → Property → Scalar → Bool
simulated_property_matches is_set p v = not (is_undefined p) && not (is_null p)
simulated_property_matches is_not_set p v = is_undefined p || is_null p
simulated_property_matches equals p v = is_same p v
simulated_property_matches not_equals p v = not (is_same p v)
simulated_property_matches starts_with p v = simulated_starts_with p v
simulated_property_matches contains p v = simulated_contains p v

abbrev pub includes_user : Option ℕ → List ℕ → Bool
includes_user none ids = false
includes_user (some u) ids = includes u ids

-- `none` is a value that is no condition of a route.
unfoldable pub runtime_match_applies : Option Match → Local → Context → Bool
runtime_match_applies none local c = false
runtime_match_applies (some override_active) local c = true
runtime_match_applies (some (schedule s)) local c = simulated_schedule_matches s local
runtime_match_applies (some (users ids)) local c = includes_user c.user_id ids
runtime_match_applies (some (call_source source)) local c = same_option c.call_source (some source)
runtime_match_applies (some (user_property key operator v)) local c =
    simulated_property_matches operator (c.properties key) v

pub data SelectionMode : Type 0 where
  ordered weighted : SelectionMode

pub record Ordering : Type 0 where
  pub mode : SelectionMode
  pub targets : List Target

-- `deterministicFraction` up to its division.
unfoldable pub simulated_hash : ℕ → List ℕ → ℕ
simulated_hash hash [] = hash
simulated_hash hash (byte ∷ bytes) =
    let mixed = bit_xor hash byte in simulated_hash (mixed * 16777619 % 2 ^ 32) bytes

abbrev pub or_first : Target → Option Target → Target
or_first first none = first
or_first first (some target) = target

module _ (fl : Floats) where
  -- The `reduce` over the weights.
  unfoldable pub sum_weights : fl.F → List Target → fl.F
  sum_weights sum [] = sum
  sum_weights sum (t ∷ ts) = sum_weights (fl.add sum (fl.weight t.weight)) ts

  -- The target at which the loop breaks.
  unfoldable pub break_at : fl.F → fl.F → List Target → Option Target
  break_at point cumulative [] = none
  break_at point cumulative (t ∷ ts) =
      let now = fl.add cumulative (fl.weight t.weight) in
      let later = break_at point now ts in if fl.less point now then some t else later

  abbrev pub selected_target : ℕ → Target → List Target → Target
  selected_target hash t ts =
      or_first t
        (break_at (fl.mul (fl.fraction hash) (sum_weights fl.zero (t ∷ ts))) fl.zero (t ∷ ts))

  -- `unit_weight` is whether a weight is one, and `bytes` are those of `${routeTag}:${selectionKey}`.
  module _ (bytes : ℕ → ℕ → List ℕ) (unit_weight : Target → Bool) where
    unfoldable pub order_weighted : ℕ → List Target → Ordering
    order_weighted hash [] = record { mode = weighted; targets = [] }
    order_weighted hash (t ∷ ts) =
        let selected = selected_target hash t ts in
        record {
          mode = weighted;
          targets = selected ∷ keep (λ u. not (u.model_id == selected.model_id)) (t ∷ ts);
        }

    unfoldable pub order_simulation_targets : List Target → ℕ → Option ℕ → Ordering
    order_simulation_targets targets tag none = record { mode = ordered; targets = targets }
    order_simulation_targets targets tag (some key) =
        if not (any (λ t. not (unit_weight t)) targets)
        then record { mode = ordered; targets = targets }
        else order_weighted (simulated_hash 2166136261 (bytes tag key)) targets

    -- `fallbackOrder` of the simulation, for the default model.
    unfoldable pub fallback_order : ℕ → List Target → List Target
    fallback_order model targets =
        keep (λ t. t.model_id == model) targets ++ keep (λ t. not (t.model_id == model)) targets

    abbrev pub simulated_default : ℕ → ℕ → List Target → Option ℕ → Ordering
    simulated_default tag model targets key =
        order_simulation_targets (fallback_order model targets) tag key

    -- The targets without the first one of the model.
    unfoldable pub without_first : ℕ → List Target → List Target
    without_first model [] = []
    without_first model (t ∷ ts) =
        let rest = without_first model ts in if t.model_id == model then ts else t ∷ rest

    -- The targets with the default model at the front, `none` where it is not among them.
    abbrev pub front : ℕ → List Target → Option Target → Option (List Target)
    front model targets none = none
    front model targets (some t) = some (t ∷ without_first model targets)

    abbrev pub route_of : ℕ → List Target → Route
    route_of tag targets = record {
      route_tag = tag;
      weighted = any (λ t. not (unit_weight t)) targets;
      targets = targets;
    }

    abbrev pub routed : ℕ → Option (List Target) → Option Route
    routed tag none = none
    routed tag (some targets) = some (route_of tag targets)

    -- The default route of a publication.
    unfoldable pub published_default : ℕ → ℕ → List Target → Option Route
    published_default tag model targets =
        routed tag (front model targets (find (λ t. t.model_id == model) targets))
