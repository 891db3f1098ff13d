-- ===== src/Routing.antt =====
-- Which target a request is routed to: sdks/node/src/runtime/routing.ts. The local time of a time zone, the
-- bytes of a text and floating-point arithmetic are parameters; a text that is only compared is a
-- number.
pub mod Matching
pub mod Order
pub mod Schedule
pub mod Winner
pub mod Simulation
pub mod Agreement
mod Tests
use Prim.Native.Nat.{bit_xor}
use token_pilot.Base.{
  ℕ, ◌+◌, ◌*◌, ◌%◌, ◌^◌, Bool, Option, none, some, List, [], ◌∷◌, ◌&&◌, ◌||◌, not, ◌==◌, ltb,
  if◌then◌else◌, keep,
}
use token_pilot.Routing.Matching.{Rule, Context, Local, Route, Target, rule_matches}

pub data Error : Type 0 where
  route_not_found route_conflict route_empty : Error

pub data Outcome {ℓ} (A : Type ℓ) : Type ℓ where
  found : A → Outcome A
  failed : Error → Outcome A

pub record Plan : Type 0 where
  pub name : ℕ
  pub virtual_model_id : ℕ
  pub default : Route
  pub rules : List Rule

pub record Selection : Type 0 where
  pub virtual_model_id : ℕ
  pub route_tag : ℕ
  pub rule : Option ℕ
  pub primary : Target
  pub fallbacks : List Target

-- The numbers of JavaScript; a weight is given by its text.
pub record Floats : Type 1 where
  pub F : Type 0
  pub zero : F
  pub weight : ℕ → F
  pub add : F → F → F
  pub mul : F → F → F
  pub less : F → F → Bool
  -- A 32-bit integer divided by 2 ^ 32.
  pub fraction : ℕ → F

-- The 32-bit FNV-1a hash of a text, by its bytes.
unfoldable pub hash_bytes : ℕ → List ℕ → ℕ
hash_bytes hash [] = hash
hash_bytes hash (byte ∷ bytes) = hash_bytes (bit_xor hash byte * 16777619 % 2 ^ 32) bytes

abbrev pub hash_text : List ℕ → ℕ
hash_text bytes = hash_bytes 2166136261 bytes

abbrev pub other_model : Target → Target → Bool
other_model selected t = not (t.model_id == selected.model_id)

module _ (fl : Floats) where
  unfoldable pub total_weight : fl.F → List Target → fl.F
  total_weight sum [] = sum
  total_weight sum (t ∷ ts) = total_weight (fl.add sum (fl.weight t.weight)) ts

  -- The loop over the targets: the first one whose cumulative weight is above the point.
  unfoldable pub pick : fl.F → fl.F → Target → List Target → Target
  pick point cumulative selected [] = selected
  pick point cumulative selected (t ∷ ts) =
      let later = pick point (fl.add cumulative (fl.weight t.weight)) selected ts in
      if fl.less point (fl.add cumulative (fl.weight t.weight)) then t else later

  abbrev pub weighted_choice : ℕ → Target → List Target → Target
  weighted_choice hash t ts =
      pick (fl.mul (fl.fraction hash) (total_weight fl.zero (t ∷ ts))) fl.zero t (t ∷ ts)

  -- `[selected, ...others]`. A weighted route without targets is handled as an empty one.
  unfoldable pub weighted_order : ℕ → List Target → List Target
  weighted_order hash [] = []
  weighted_order hash (t ∷ ts) =
      weighted_choice hash t ts ∷ keep (other_model (weighted_choice hash t ts)) (t ∷ ts)

  -- The bytes of `${route_tag}:${selectionKey}`.
  module _ (bytes : ℕ → ℕ → List ℕ) where
    unfoldable pub ordered_targets : Route → Option ℕ → List Target
    ordered_targets route none = route.targets
    ordered_targets route (some key) =
        if not route.weighted
        then route.targets
        else weighted_order (hash_text (bytes route.route_tag key)) route.targets

    abbrev pub first_some : Option ℕ → Option ℕ → Option ℕ
    first_some none b = b
    first_some (some a) b = some a

    unfoldable pub selection_of : Plan → Route → Option ℕ → List Target → Outcome Selection
    selection_of plan route rule [] = failed route_empty
    selection_of plan route rule (t ∷ ts) = found (record {
      virtual_model_id = plan.virtual_model_id;
      route_tag = route.route_tag;
      rule = rule;
      primary = t;
      fallbacks = ts;
    })

    abbrev pub selection : Plan → Route → Option ℕ → Context → Outcome Selection
    selection plan route rule context =
        selection_of plan route rule
          (ordered_targets route (first_some context.selection_key context.user_id))

    abbrev pub max : ℕ → ℕ → ℕ
    max a b = if ltb a b then b else a

    unfoldable pub highest : List Rule → ℕ
    highest [] = 0
    highest (r ∷ rs) = max r.priority (highest rs)

    abbrev pub winners : List Rule → List Rule
    winners matched = keep (λ r. r.priority == highest matched) matched

    unfoldable pub resolve_winner : Plan → List Rule → Context → Outcome Selection
    resolve_winner plan [] context = failed route_conflict
    resolve_winner plan (winner ∷ []) context = selection plan winner.route (some winner.id) context
    resolve_winner plan (a ∷ b ∷ rest) context = failed route_conflict

    unfoldable pub resolve_matched : Plan → List Rule → Context → Outcome Selection
    resolve_matched plan [] context = selection plan plan.default none context
    resolve_matched plan (r ∷ rs) context = resolve_winner plan (winners (r ∷ rs)) context

    -- `resolveRuntimeRoute`, for a local time that was computed.
    unfoldable pub resolve_runtime_route :
        (ℕ → Option Plan) → ℕ → Local → ℕ → Context → Outcome Selection
    resolve_runtime_route plans name local now context = elim (plans name) [
      | none ↦ failed route_not_found
      | some plan ↦
          resolve_matched plan (keep (λ r. rule_matches r local now context) plan.rules) context
    ]
