-- ===== src/Features/Update.antt =====
-- An operator sets feature flags: setInstanceFeatureFlags of
-- packages/db/src/feature-flag-operator.ts and the row of packages/db/src/instance-settings.ts.
--
-- An instance keeps at most one row of settings (its id is 1) and an audit log, newest entry first.
-- The action and the object type of an entry are always the same texts and are left out. A
-- transaction that throws leaves nothing, so a rejection carries no instance.
use token_pilot.Base.{
  same_bool, ℕ, Bool, true, false, not, ◌||◌, ◌&&◌, Option, some, none, List, [], ◌∷◌, ◌++◌, keep,
  length, ltb, leb, ◌==◌, if◌then◌else◌,
}
use token_pilot.Features.{Flags, FlagName, flag_names, Runtime, Issue, configuration_issues}

-- A string as its UTF-16 code units.
abbrev pub CodeUnits : Type 0
CodeUnits = List ℕ

-- The white space and line terminators that `trim` removes.
abbrev is_blank : ℕ → Bool
is_blank c =
    (leb 9 c && leb c 13)
    || c == 32
    || c == 160
    || c == 5760
    || (leb 8192 c && leb c 8202)
    || c == 8232
    || c == 8233
    || c == 8239
    || c == 8287
    || c == 12288
    || c == 65279

abbrev trim_start : CodeUnits → CodeUnits
trim_start [] = []
trim_start (c ∷ cs) = if is_blank c then trim_start cs else c ∷ cs

abbrev reverse : CodeUnits → CodeUnits
reverse [] = []
reverse (c ∷ cs) = reverse cs ++ (c ∷ [])

abbrev pub trim : CodeUnits → CodeUnits
trim text = reverse (trim_start (reverse (trim_start text)))

pub record Settings : Type 0 where
  pub instance_id : ℕ
  pub feature_usage_pipeline : Bool
  pub feature_model_catalog : Bool
  pub feature_aiu : Bool
  pub feature_quota : Bool
  pub feature_hard_limit : Bool
  pub feature_reconciliation : Bool

abbrev pub flags_from_settings : Settings → Flags
flags_from_settings settings FlagName.usage_pipeline = settings.feature_usage_pipeline
flags_from_settings settings FlagName.model_catalog = settings.feature_model_catalog
flags_from_settings settings FlagName.aiu = settings.feature_aiu
flags_from_settings settings FlagName.quota = settings.feature_quota
flags_from_settings settings FlagName.hard_limit = settings.feature_hard_limit
flags_from_settings settings FlagName.reconciliation = settings.feature_reconciliation

pub record AuditLog : Type 0 where
  pub actor_id : CodeUnits
  pub object_id : ℕ
  pub before : Flags
  pub after : Flags
  pub changed_flags : List FlagName
  pub reason : CodeUnits

pub record Instance : Type 0 where
  pub settings : Option Settings
  pub audit : List AuditLog

pub data Failure : Type 0 where
  invalid_actor : Failure
  invalid_reason : Failure
  no_assignment : Failure
  not_initialized : Failure
  invalid_configuration : List Issue → Failure

pub record UpdateResult : Type 0 where
  pub before : Flags
  pub after : Flags
  pub changed_flags : List FlagName
  pub worker_restart_required : Bool

pub data Attempt : Type 0 where
  updated : UpdateResult → Instance → Attempt
  rejected : Failure → Attempt

-- The assignments of a patch; a name that it leaves out has none.
abbrev pub Patch : Type 0
Patch = FlagName → Option Bool

unfoldable pub validate_operator_metadata : CodeUnits → CodeUnits → Option Failure
validate_operator_metadata actor reason =
    let actor_length = length (trim actor) in
    let reason_length = length (trim reason) in
    if actor_length == 0 || ltb 256 actor_length
    then some invalid_actor
    else (if ltb reason_length 5 || ltb 500 reason_length then some invalid_reason else none)

abbrev pub is_assigned : Option Bool → Bool
is_assigned none = false
is_assigned (some value) = true

abbrev pub requested_flags : Patch → List FlagName
requested_flags patch = keep (λ name. is_assigned (patch name)) flag_names

abbrev pub assigned : Bool → Option Bool → Bool
assigned old none = old
assigned old (some value) = value

-- `{ ...before, ...patch }`.
abbrev pub patched : Flags → Patch → Flags
patched before patch name = assigned (before name) (patch name)

abbrev pub differs : Flags → Flags → FlagName → Bool
differs before after name = not (same_bool (before name) (after name))

abbrev pub store_flags : Settings → Flags → Settings
store_flags row after = record row {
  feature_usage_pipeline = after FlagName.usage_pipeline;
  feature_model_catalog = after FlagName.model_catalog;
  feature_aiu = after FlagName.aiu;
  feature_quota = after FlagName.quota;
  feature_hard_limit = after FlagName.hard_limit;
  feature_reconciliation = after FlagName.reconciliation;
}

module _ (patch : Patch) (runtime : Runtime) (actor reason : CodeUnits) (s : Instance) where
  -- After the comparison of the requested flags with the stored ones.
  unfoldable pub write_changed : Settings → Flags → List FlagName → Attempt
  write_changed current after [] =
      updated
        (record {
          before = flags_from_settings current;
          after = after;
          changed_flags = [];
          worker_restart_required = true;
        })
        s
  write_changed current after (name ∷ names) =
      updated
        (record {
          before = flags_from_settings current;
          after = after;
          changed_flags = name ∷ names;
          worker_restart_required = true;
        })
        (record {
          settings = some (store_flags current after);
          audit =
              record {
                actor_id = trim actor;
                object_id = current.instance_id;
                before = flags_from_settings current;
                after = after;
                changed_flags = name ∷ names;
                reason = trim reason;
              }
              ∷ s.audit;
        })

  -- After the check of the patched flags.
  unfoldable pub write_valid : Settings → Flags → List Issue → Attempt
  write_valid current after (issue ∷ issues) = rejected (invalid_configuration (issue ∷ issues))
  write_valid current after [] =
      write_changed current after
        (keep (differs (flags_from_settings current) after) (requested_flags patch))

  unfoldable pub update_current : Option Settings → Attempt
  update_current none = rejected not_initialized
  update_current (some current) =
      let after = patched (flags_from_settings current) patch in
      write_valid current after (configuration_issues after runtime)

  unfoldable pub update_requested : List FlagName → Attempt
  update_requested [] = rejected no_assignment
  update_requested (name ∷ names) = update_current s.settings

  unfoldable pub update_checked : Option Failure → Attempt
  update_checked (some failure) = rejected failure
  update_checked none = update_requested (requested_flags patch)

  unfoldable pub set_feature_flags : Attempt
  set_feature_flags = update_checked (validate_operator_metadata actor reason)
