-- ===== src/Features/Effect.antt =====
-- What setInstanceFeatureFlags of packages/db/src/feature-flag-operator.ts leaves.
use mathlib.Core.Path.{fun_ext}
use token_pilot.Base.{
  same_bool, ◌≡◌, ◌≢◌, refl, sym, ◌∙◌, Bool, true, false, not, Option, some, none, List, [], ◌∷◌,
  keep, All, All-keep, All-keep-none, All-of_keep, ◌⊎◌, inl, inr,
}
use token_pilot.Features.{Flags, FlagName, flag_names, Runtime, Issue, configuration_issues}
use token_pilot.Features.Validity.{Valid, configuration_issues-Valid}
use token_pilot.Features.Update.{
  CodeUnits, trim, Settings, flags_from_settings, AuditLog, Instance, Failure, UpdateResult,
  updated, Patch, is_assigned, requested_flags, assigned, patched, differs, store_flags,
  write_changed, write_valid, update_current, update_requested, update_checked,
  validate_operator_metadata, set_feature_flags,
}

-- The audit log is as before and so is each flag, or the log has one entry more and a flag has
-- another value.
abbrev pub Audited : Instance → Instance → Settings → Settings → Type 0
Audited s t row now =
    ((t.audit ≡ s.audit)
      × ((name : FlagName) → flags_from_settings now name ≡ flags_from_settings row name))
    ⊎ ((entry : AuditLog) × (t.audit ≡ entry ∷ s.audit)
        × ((name : FlagName) × (flags_from_settings now name ≢ flags_from_settings row name)))

pub record Updated (patch : Patch) (runtime : Runtime) (s t : Instance) : Type 0 where
  row : Settings
  now : Settings
  found : s.settings ≡ some row
  stored : t.settings ≡ some now
  assigned_flag :
      (name : FlagName) (value : Bool)
      → patch name ≡ some value
      → flags_from_settings now name ≡ value
  kept_flag :
      (name : FlagName)
      → patch name ≡ none
      → flags_from_settings now name ≡ flags_from_settings row name
  valid : Valid (flags_from_settings now) runtime
  audited : Audited s t row now

Valid-same :
    (f g : Flags) (runtime : Runtime)
    → ((n : FlagName) → f n ≡ g n)
    → Valid f runtime
    → Valid g runtime
Valid-same f g runtime h v = rw (← fun_ext h) v

pub every_name : (P : FlagName → Type 0) → All P flag_names → (name : FlagName) → P name
every_name P h FlagName.usage_pipeline = h.0
every_name P h FlagName.model_catalog = h.1.0
every_name P h FlagName.aiu = h.1.1.0
every_name P h FlagName.quota = h.1.1.1.0
every_name P h FlagName.hard_limit = h.1.1.1.1.0
every_name P h FlagName.reconciliation = h.1.1.1.1.1.0

stored_flag :
    (row : Settings) (after : Flags) (name : FlagName)
    → flags_from_settings (store_flags row after) name ≡ after name
stored_flag row after FlagName.usage_pipeline = refl
stored_flag row after FlagName.model_catalog = refl
stored_flag row after FlagName.aiu = refl
stored_flag row after FlagName.quota = refl
stored_flag row after FlagName.hard_limit = refl
stored_flag row after FlagName.reconciliation = refl

flag_kept :
    (old : Bool) (o : Option Bool)
    → (is_assigned o ≡ true → not (same_bool old (assigned old o)) ≡ false)
    → old ≡ assigned old o
flag_kept old none h = refl
flag_kept true (some true) h = refl
flag_kept true (some false) h = h refl
flag_kept false (some true) h = sym (h refl)
flag_kept false (some false) h = refl

differs-ne : (x y : Bool) → not (same_bool x y) ≡ true → y ≢ x
differs-ne true true h e = cc
differs-ne true false h e = cc
differs-ne false true h e = cc
differs-ne false false h e = cc

module _ (patch : Patch) (runtime : Runtime) (actor reason : CodeUnits) (s t : Instance)
    (outcome : UpdateResult) where
  abbrev after : Settings → Flags
  after row = patched (flags_from_settings row) patch

  unchanged_flags :
      (row : Settings)
      → keep (differs (flags_from_settings row) (after row)) (requested_flags patch) ≡ []
      → (name : FlagName) → flags_from_settings row name ≡ after row name
  unchanged_flags row h name = flag_kept (flags_from_settings row name) (patch name) (
      every_name
        (λ n.
          is_assigned (patch n) ≡ true → differs (flags_from_settings row) (after row) n ≡ false)
        (All-of_keep _ (λ n. is_assigned (patch n)) flag_names
          (All-keep-none (differs (flags_from_settings row) (after row)) (requested_flags patch) h))
        name)

  -- The rest follows from the row that is stored and what the log says of it.
  from_stored :
      (row now : Settings)
      → s.settings ≡ some row
      → t.settings ≡ some now
      → ((name : FlagName) → flags_from_settings now name ≡ after row name)
      → Valid (after row) runtime
      → Audited s t row now
      → Updated patch runtime s t
  from_stored row now f n agree v a = record {
    row = row;
    now = now;
    found = f;
    stored = n;
    assigned_flag = λ name value e. agree name ∙ rw e refl;
    kept_flag = λ name e. agree name ∙ rw e refl;
    valid = Valid-same (after row) (flags_from_settings now) runtime (λ name. sym (agree name)) v;
    audited = a;
  }

  abbrev entry : Settings → List FlagName → AuditLog
  entry row names = record {
    actor_id = trim actor;
    object_id = row.instance_id;
    before = flags_from_settings row;
    after = after row;
    changed_flags = names;
    reason = trim reason;
  }

  first :
      (row : Settings) (name : FlagName) (names : List FlagName)
      → keep (differs (flags_from_settings row) (after row)) (requested_flags patch) ≡ name ∷ names
      → differs (flags_from_settings row) (after row) name ≡ true
  first row name names e =
      let h = All-keep (differs (flags_from_settings row) (after row)) (requested_flags patch) in
      (rw e at h).0

  changed_lem :
      (row : Settings) (names : List FlagName)
      → keep (differs (flags_from_settings row) (after row)) (requested_flags patch) ≡ names
      → s.settings ≡ some row
      → Valid (after row) runtime
      → write_changed patch runtime actor reason s row (after row) names ≡ updated outcome t
      → Updated patch runtime s t
  unfolding write_changed
  changed_lem row [] e f v h =
      let same : s ≡ t = cc in
      from_stored row row f (rw (← same) f) (unchanged_flags row e) v
        (inl (rw same refl, λ name. refl))
  changed_lem row (name ∷ names) e f v h =
      let same : record {
        settings = some (store_flags row (after row));
        audit = entry row (name ∷ names) ∷ s.audit;
      }
          ≡ t =
        cc in
      from_stored row (store_flags row (after row)) f (rw (← same) refl)
        (stored_flag row (after row)) v
        (inr (
          entry row (name ∷ names),
          rw (← same) refl,
          (name, rw (stored_flag row (after row) name) (differs-ne _ _ (first row name names e))),
        ))

  valid_lem :
      (row : Settings) (issues : List Issue)
      → configuration_issues (after row) runtime ≡ issues
      → s.settings ≡ some row
      → write_valid patch runtime actor reason s row (after row) issues ≡ updated outcome t
      → Updated patch runtime s t
  unfolding write_valid
  valid_lem row [] e f h =
      changed_lem row _ refl f ((configuration_issues-Valid (after row) runtime).0 e) h
  valid_lem row (issue ∷ issues) e f h = cc

  current_lem :
      (o : Option Settings)
      → s.settings ≡ o
      → update_current patch runtime actor reason s o ≡ updated outcome t
      → Updated patch runtime s t
  unfolding update_current
  current_lem none e h = cc
  current_lem (some row) e h = valid_lem row _ refl e h

  requested_lem :
      (names : List FlagName)
      → update_requested patch runtime actor reason s names ≡ updated outcome t
      → Updated patch runtime s t
  unfolding update_requested
  requested_lem [] h = cc
  requested_lem (name ∷ names) h = current_lem s.settings refl h

  checked_lem :
      (o : Option Failure)
      → update_checked patch runtime actor reason s o ≡ updated outcome t
      → Updated patch runtime s t
  unfolding update_checked
  checked_lem none h = requested_lem (requested_flags patch) h
  checked_lem (some failure) h = cc

  -- An update that succeeds leaves a row of settings in which each flag that the patch assigns has
  -- the assigned value and each other flag the value that it had, and the flags satisfy what the
  -- settings promise for the runtime. Either no flag has changed and the audit log is as before, or
  -- some flag has changed and the log has one entry more.
  pub set_feature_flags-Updated :
      set_feature_flags patch runtime actor reason s ≡ updated outcome t → Updated patch runtime s t
  unfolding set_feature_flags
  set_feature_flags-Updated h = checked_lem (validate_operator_metadata actor reason) h
