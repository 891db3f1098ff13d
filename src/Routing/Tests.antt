-- ===== src/Routing/Tests.antt =====
-- A plan with an overnight rule, and a weighted route of three targets.
use token_pilot.Base.{
  ◌&&◌, Bool, ℕ, ◌+◌, ◌*◌, ◌/◌, ◌^◌, ◌≡◌, ◌↔◌, refl, true, Option, none, some, List, [], ◌∷◌, ltb,
  ◌==◌, arith,
}
use token_pilot.Routing.Matching.{
  users, schedule, undefined, Schedule, Local, Context, Route, schedule_matches, match_applies,
  Target,
}
use token_pilot.Routing.{Floats, Plan, resolve_runtime_route, ordered_targets}
use token_pilot.Routing.Order.{Distinct, SameModels, ordered_targets-SameModels}
use token_pilot.Routing.Simulation.{runtime_match_applies}
use token_pilot.Routing.Schedule.{Within, schedule_matches-Within}
use token_pilot.Routing.Winner.{Decided, resolve_runtime_route-Decided}
use token_pilot.Routing.Agreement.{in_force, match_applies-simulated}

abbrev rounded : Floats
rounded = record {
  F = ℕ;
  zero = 0;
  weight = λ w. w * 1000;
  add = λ x y. x + y;
  mul = λ x y. x * y / 1000;
  less = λ x y. ltb x y;
  fraction = λ h. h * 1000 / 2 ^ 32;
}

abbrev bytes : ℕ → ℕ → List ℕ
bytes tag key = tag ∷ 58 ∷ key ∷ []

abbrev route : Route
route = record {
  route_tag = 97;
  weighted = true;
  targets =
      record { model_id = 1; weight = 5 }
      ∷ record { model_id = 2; weight = 3 }
      ∷ record { model_id = 3; weight = 2 }
      ∷ [];
}

route-Distinct : Distinct route.targets
route-Distinct i = ground arith

abbrev night : Schedule
night = record {
  days = 5 ∷ 7 ∷ [];
  start = record { hour = 22; minute = 0 };
  end = record { hour = 6; minute = 30 };
}

abbrev monday : Local
monday = record { weekday = 1; minute = 300 }

abbrev context : Context
context = record {
  user_id = some 4;
  properties = λ _. undefined;
  call_source = none;
  selection_key = none;
}

abbrev plan : Plan
plan = record {
  name = 1;
  virtual_model_id = 8;
  default = route;
  rules =
      record { id = 21; priority = 5; expires_at = none; condition = schedule night; route = route }
      ∷ record {
        id = 22;
        priority = 4;
        expires_at = none;
        condition = users (4 ∷ []);
        route = route;
      }
      ∷ [];
}

abbrev plans : ℕ → Option Plan
plans name = some plan

ordered_targets-SameModels_example :
    SameModels (ordered_targets rounded bytes route (some 121)) route.targets
ordered_targets-SameModels_example =
    ordered_targets-SameModels rounded bytes route (some 121) route-Distinct

abbrev unit_weight : Target → Bool
unit_weight t = t.weight == 1

-- The second target is the default one.
abbrev published : Route
published = record {
  route_tag = 97;
  weighted = true;
  targets =
      record { model_id = 2; weight = 3 }
      ∷ record { model_id = 1; weight = 5 }
      ∷ record { model_id = 3; weight = 2 }
      ∷ [];
}

schedule_matches-Within_example :
    (schedule_matches night monday ≡ true) ↔ ((d : ℕ) × Within night monday d)
schedule_matches-Within_example =
    schedule_matches-Within night monday (omega arith) (omega arith) (omega arith) (omega arith)
      (omega arith)

resolve_runtime_route-Decided_example :
    Decided rounded bytes plan monday 0 context
      (resolve_runtime_route rounded bytes plans 1 monday 0 context)
resolve_runtime_route-Decided_example =
    resolve_runtime_route-Decided rounded bytes plans 1 plan monday 0 context refl

match_applies-simulated_example : match_applies (schedule night) none monday 0 context ≡ (
    in_force (schedule night) none 0
    && runtime_match_applies (some (schedule night)) monday context)
match_applies-simulated_example =
    match_applies-simulated (schedule night) none monday 0 context
      ((omega arith, omega arith), (omega arith, omega arith))
