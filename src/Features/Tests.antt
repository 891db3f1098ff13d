-- ===== src/Features/Tests.antt =====
-- An instance with metering, on which an operator turns quotas on.
use token_pilot.Base.{arith, ◌↔◌, ◌≡◌, refl, true, false, none, some, [], ◌∷◌}
use token_pilot.Features.{FlagName, Flags, AiuMode, Runtime, configuration_issues}
use token_pilot.Features.Validity.{Valid, configuration_issues-Valid}
use token_pilot.Features.Update.{
  patched, flags_from_settings, CodeUnits, Settings, Instance, Patch, Attempt, updated, rejected,
  UpdateResult, set_feature_flags, write_changed, write_valid, update_current, update_requested,
  update_checked, validate_operator_metadata,
}
use token_pilot.Features.Acceptance.{Succeeds, set_feature_flags-Succeeds}
use token_pilot.Features.Effect.{Updated, set_feature_flags-Updated}

abbrev runtime : Runtime
runtime = record {
  aiu_enabled = true;
  aiu_mode = AiuMode.observe;
  hourly_enabled = false;
  daily_enabled = true;
}

abbrev row : Settings
row = record {
  instance_id = 77;
  feature_usage_pipeline = true;
  feature_model_catalog = false;
  feature_aiu = true;
  feature_quota = false;
  feature_hard_limit = false;
  feature_reconciliation = false;
}

abbrev start : Instance
start = record { settings = some row; audit = [] }

abbrev quota_on : Patch
quota_on FlagName.usage_pipeline = none
quota_on FlagName.model_catalog = none
quota_on FlagName.aiu = none
quota_on FlagName.quota = some true
quota_on FlagName.hard_limit = none
quota_on FlagName.reconciliation = none

abbrev metered : Flags
metered FlagName.usage_pipeline = true
metered FlagName.model_catalog = false
metered FlagName.aiu = true
metered FlagName.quota = true
metered FlagName.hard_limit = false
metered FlagName.reconciliation = true

-- A name, and a reason after a space.
abbrev actor : CodeUnits
actor = 97 ∷ []

abbrev reason : CodeUnits
reason = 32 ∷ 113 ∷ 117 ∷ 111 ∷ 116 ∷ 97 ∷ []

abbrev attempt : Attempt
attempt = set_feature_flags quota_on runtime actor reason start

abbrev left : Attempt → Instance
left (updated outcome t) = t
left (rejected failure) = start

abbrev outcome : Attempt → UpdateResult
outcome (updated o t) = o
outcome (rejected failure) = record {
  before = metered;
  after = metered;
  changed_flags = [];
  worker_restart_required = false;
}

attempt_success : attempt ≡ updated (outcome attempt) (left attempt)
unfolding set_feature_flags write_changed write_valid update_current update_requested update_checked
    validate_operator_metadata configuration_issues
attempt_success = refl

set_feature_flags-Updated_example : Updated quota_on runtime start (left attempt)
set_feature_flags-Updated_example =
    set_feature_flags-Updated quota_on runtime actor reason start (left attempt) (outcome attempt)
      attempt_success

configuration_issues-Valid_example :
    (configuration_issues metered runtime ≡ []) ↔ Valid metered runtime
configuration_issues-Valid_example = configuration_issues-Valid metered runtime

quota_on-Valid : Valid (patched (flags_from_settings row) quota_on) runtime
unfolding configuration_issues
quota_on-Valid =
    (configuration_issues-Valid (patched (flags_from_settings row) quota_on) runtime).0 refl

set_feature_flags-Succeeds_example :
    Succeeds (set_feature_flags quota_on runtime actor reason start)
set_feature_flags-Succeeds_example =
    set_feature_flags-Succeeds quota_on runtime actor reason start row FlagName.quota (omega arith)
      (omega arith) (omega arith) (omega arith) refl refl quota_on-Valid
