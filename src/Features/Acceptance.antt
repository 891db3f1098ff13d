-- ===== src/Features/Acceptance.antt =====
-- Which calls of setInstanceFeatureFlags of packages/db/src/feature-flag-operator.ts succeed.
use token_pilot.Base.{
  ◌≡◌, refl, true, false, Option, some, none, List, [], ◌∷◌, All-keep-none, length, ◌≤◌, arith,
}
use token_pilot.Features.{Flags, FlagName, flag_names, Runtime}
use token_pilot.Features.Validity.{Valid, configuration_issues-Valid}
use token_pilot.Features.Effect.{every_name}
use token_pilot.Features.Update.{
  CodeUnits, trim, Settings, flags_from_settings, Instance, UpdateResult, Attempt, updated, Patch,
  is_assigned, requested_flags, patched, write_changed, write_valid, update_current,
  update_requested, update_checked, validate_operator_metadata, set_feature_flags,
}

abbrev pub Succeeds : Attempt → Type 0
Succeeds attempt = (result : UpdateResult) × ((t : Instance) × (attempt ≡ updated result t))

metadata_lem :
    (actor reason : CodeUnits)
    → 1 ≤ length (trim actor)
    → length (trim actor) ≤ 256
    → 5 ≤ length (trim reason)
    → length (trim reason) ≤ 500
    → validate_operator_metadata actor reason ≡ none
unfolding validate_operator_metadata
metadata_lem actor reason h1 h2 h3 h4 = ground arith

module _ (patch : Patch) (runtime : Runtime) (actor reason : CodeUnits) (s : Instance) where
  changed_lem :
      (row : Settings) (after : Flags) (names : List FlagName)
      → Succeeds (write_changed patch runtime actor reason s row after names)
  unfolding write_changed
  changed_lem row after [] = (_, (_, refl))
  changed_lem row after (name ∷ names) = (_, (_, refl))

  current_lem :
      (row : Settings) (o : Option Settings)
      → o ≡ some row
      → Valid (patched (flags_from_settings row) patch) runtime
      → Succeeds (update_current patch runtime actor reason s o)
  unfolding update_current write_valid
  current_lem row none e v = cc
  current_lem row (some stored) e v =
      let same : row ≡ stored = cc in
      rw
        (← same, (configuration_issues-Valid (patched (flags_from_settings row) patch) runtime).1 v)
        (changed_lem row _ _)

  requested_lem :
      (name : FlagName) (names : List FlagName)
      → is_assigned (patch name) ≡ true
      → requested_flags patch ≡ names
      → Succeeds (update_current patch runtime actor reason s s.settings)
      → Succeeds (update_requested patch runtime actor reason s names)
  unfolding update_requested
  requested_lem name [] h e ok =
      let none_such : is_assigned (patch name) ≡ false =
        every_name (λ n. is_assigned (patch n) ≡ false)
          (All-keep-none (λ n. is_assigned (patch n)) flag_names e) name in
      cc
  requested_lem name (x ∷ xs) h e ok = ok

  -- An update of the flags succeeds if, after trimming, the actor has 1 to 256 code units and the
  -- reason 5 to 500, the patch assigns some flag, the instance has its row of settings, and the
  -- patched flags of that row satisfy what the settings promise for the runtime.
  pub set_feature_flags-Succeeds :
      (row : Settings) (name : FlagName)
      → 1 ≤ length (trim actor)
      → length (trim actor) ≤ 256
      → 5 ≤ length (trim reason)
      → length (trim reason) ≤ 500
      → s.settings ≡ some row
      → is_assigned (patch name) ≡ true
      → Valid (patched (flags_from_settings row) patch) runtime
      → Succeeds (set_feature_flags patch runtime actor reason s)
  unfolding set_feature_flags update_checked
  set_feature_flags-Succeeds row name h1 h2 h3 h4 found assigned v =
      rw (metadata_lem actor reason h1 h2 h3 h4) (
        requested_lem name (requested_flags patch) assigned refl
          (current_lem row s.settings found v))
