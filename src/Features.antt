-- ===== src/Features.antt =====
-- The feature flags of an instance: packages/shared/src/feature-flags.ts, and their update by an
-- operator, packages/db/src/feature-flag-operator.ts.
pub mod Validity
pub mod Update
pub mod Effect
pub mod Acceptance
mod Tests
use token_pilot.Base.{
  same_bool, ◌≡◌, Bool, true, false, List, [], ◌∷◌, keep, not, ◌&&◌, ◌||◌, if◌then◌else◌,
}

pub data FlagName : Type 0 where
  usage_pipeline : FlagName
  model_catalog : FlagName
  aiu : FlagName
  quota : FlagName
  hard_limit : FlagName
  reconciliation : FlagName

abbrev pub flag_names : List FlagName
flag_names =
    FlagName.usage_pipeline ∷ FlagName.model_catalog ∷ FlagName.aiu ∷ FlagName.quota
    ∷ FlagName.hard_limit ∷ FlagName.reconciliation ∷ []

-- The record that has a Boolean for each name.
abbrev pub Flags : Type 0
Flags = FlagName → Bool

pub data AiuMode : Type 0 where
  disabled : AiuMode
  observe : AiuMode
  soft_limit : AiuMode
  hard_limit : AiuMode

abbrev pub is_disabled : AiuMode → Bool
is_disabled AiuMode.disabled = true
is_disabled AiuMode.observe = false
is_disabled AiuMode.soft_limit = false
is_disabled AiuMode.hard_limit = false

abbrev pub is_hard_limit : AiuMode → Bool
is_hard_limit AiuMode.disabled = false
is_hard_limit AiuMode.observe = false
is_hard_limit AiuMode.soft_limit = false
is_hard_limit AiuMode.hard_limit = true

pub record Runtime : Type 0 where
  aiu_enabled : Bool
  aiu_mode : AiuMode
  hourly_enabled : Bool
  daily_enabled : Bool

-- The messages of the configuration check.
pub data Issue : Type 0 where
  quota_requires_aiu : Issue
  hard_limit_requires_aiu_and_quota : Issue
  aiu_requires_active_mode : Issue
  hard_limit_requires_mode : Issue
  reconciliation_requires_schedule : Issue
  mode_inconsistent : Issue

abbrev pub enabled_capabilities : Flags → List FlagName
enabled_capabilities flags = keep flags flag_names

-- `if (test) issues.push(issue)` for each of the pairs in turn.
abbrev pub collect : List (Bool × Issue) → List Issue
collect [] = []
collect (check ∷ rest) = if check.0 then check.1 ∷ collect rest else collect rest

abbrev pub checks : Flags → Runtime → List (Bool × Issue)
checks flags runtime =
    (flags FlagName.quota && not (flags FlagName.aiu), quota_requires_aiu)
    ∷ (
      flags FlagName.hard_limit && (not (flags FlagName.aiu) || not (flags FlagName.quota)),
      hard_limit_requires_aiu_and_quota,
    )
    ∷ (
      flags FlagName.aiu && (not runtime.aiu_enabled || is_disabled runtime.aiu_mode),
      aiu_requires_active_mode,
    )
    ∷ (flags FlagName.hard_limit && not (is_hard_limit runtime.aiu_mode), hard_limit_requires_mode)
    ∷ (
      flags FlagName.reconciliation && (not runtime.hourly_enabled && not runtime.daily_enabled),
      reconciliation_requires_schedule,
    )
    ∷ (same_bool runtime.aiu_enabled (is_disabled runtime.aiu_mode), mode_inconsistent)
    ∷ []

unfoldable pub configuration_issues : Flags → Runtime → List Issue
configuration_issues flags runtime = collect (checks flags runtime)
