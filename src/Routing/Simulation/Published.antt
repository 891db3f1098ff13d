-- ===== src/Routing/Simulation/Published.antt =====
-- The simulation orders the targets of a virtual model as the SDK orders those of the default route
-- that is published for it.
use token_pilot.Base.{ℕ, ◌≡◌, Bool, Option, none, some, List, if◌then◌else◌}
use token_pilot.Routing.Matching.{Target, Route}
use token_pilot.Routing.{Floats, ordered_targets}
use token_pilot.Routing.Simulation.{Ordering, SelectionMode, ordered, weighted}

module _ (fl : Floats) where
  module _ (bytes : ℕ → ℕ → List ℕ) (unit_weight : Target → Bool) where
    abbrev pub mode_of : Bool → Option ℕ → SelectionMode
    mode_of weights none = ordered
    mode_of weights (some key) = if weights then weighted else ordered

    abbrev Agrees : Ordering → Route → Option ℕ → Type 0
    Agrees ordering route key =
        (ordering.targets ≡ ordered_targets fl bytes route key)
        × (ordering.mode ≡ mode_of route.weighted key)
