-- ===== src/Features/Validity.antt =====
-- The check of the feature flags against the runtime settings: instanceFeatureConfigurationIssues
-- of packages/shared/src/feature-flags.ts.
use token_pilot.Base.{
  same_bool, ◌≡◌, refl, sym, ◌∙◌, Bool, true, false, List, [], ◌∷◌, not, ◌&&◌, ◌||◌, ◌↔◌, ◌⊎◌,
  arith, All,
}
use token_pilot.Features.{
  Flags, FlagName, AiuMode, is_disabled, is_hard_limit, Runtime, Issue, collect, checks,
  configuration_issues,
}

-- What the settings of an instance promise.
pub record Valid (flags : Flags) (runtime : Runtime) : Type 0 where
  consistent : runtime.aiu_enabled ≡ not (is_disabled runtime.aiu_mode)
  metered : flags FlagName.aiu ≡ true → is_disabled runtime.aiu_mode ≡ false
  limited : flags FlagName.quota ≡ true → flags FlagName.aiu ≡ true
  enforced :
      flags FlagName.hard_limit ≡ true
      → (flags FlagName.quota ≡ true) × (runtime.aiu_mode ≡ AiuMode.hard_limit)
  scheduled :
      flags FlagName.reconciliation ≡ true
      → (runtime.hourly_enabled ≡ true) ⊎ (runtime.daily_enabled ≡ true)

collect-empty : (xs : List (Bool × Issue)) → (collect xs ≡ []) ↔ All (λ x. x.0 ≡ false) xs
collect-empty [] = (λ _. tt, λ _. refl)
collect-empty ((true, issue) ∷ xs) = (λ h. cc, λ h. cc)
collect-empty ((false, issue) ∷ xs) =
    let (to, from) = collect-empty xs in (λ h. (refl, to h), λ h. from h.1)

is_hard_limit-mode : (m : AiuMode) → (is_hard_limit m ≡ true) ↔ (m ≡ AiuMode.hard_limit)
is_hard_limit-mode AiuMode.disabled = (λ h. cc, λ h. cc)
is_hard_limit-mode AiuMode.observe = (λ h. cc, λ h. cc)
is_hard_limit-mode AiuMode.soft_limit = (λ h. cc, λ h. cc)
is_hard_limit-mode AiuMode.hard_limit = (λ h. refl, λ h. refl)

consistent_iff : (e d : Bool) → (same_bool e d ≡ false) ↔ (e ≡ not d)
consistent_iff true true = (λ h. cc, λ h. cc)
consistent_iff true false = (λ h. refl, λ h. refl)
consistent_iff false true = (λ h. refl, λ h. refl)
consistent_iff false false = (λ h. cc, λ h. cc)

implies_iff : (a b : Bool) → ((a && not b) ≡ false) ↔ (a ≡ true → b ≡ true)
implies_iff true true = (λ h _. refl, λ h. refl)
implies_iff true false = (λ h _. cc, λ h. sym (h refl))
implies_iff false b = (λ h e. cc, λ h. refl)

both : (a x y : Bool) → ((a && (not x || not y)) ≡ false) ↔ (a ≡ true → (x ≡ true) × (y ≡ true))
both a x y = ground arith

some_of : (a x y : Bool) → ((a && (not x && not y)) ≡ false) ↔ (a ≡ true → (x ≡ true) ⊎ (y ≡ true))
some_of a x y = ground arith

active : (a e d : Bool) → ((a && (not e || d)) ≡ false) ↔ (a ≡ true → (e ≡ true) × (d ≡ false))
active a e d = ground arith

-- The check of the flags of an instance finds no issue exactly when the following hold: AIU_ENABLED
-- says whether AIU_MODE is another one than disabled; aiu needs such a mode, quota needs aiu,
-- hard_limit needs quota and the mode hard_limit, and reconciliation needs the hourly or the daily
-- schedule.
pub configuration_issues-Valid :
    (flags : Flags) (runtime : Runtime)
    → (configuration_issues flags runtime ≡ []) ↔ Valid flags runtime
unfolding configuration_issues
configuration_issues-Valid flags runtime = (
  λ h.
      let (h1, (h2, (h3, (h4, (h5, (h6, _)))))) = (collect-empty (checks flags runtime)).0 h in
      record {
        consistent = (consistent_iff runtime.aiu_enabled (is_disabled runtime.aiu_mode)).0 h6;
        metered = λ on.
            ((active (flags FlagName.aiu) runtime.aiu_enabled (is_disabled runtime.aiu_mode)).0 h3
              on).1;
        limited = (implies_iff (flags FlagName.quota) (flags FlagName.aiu)).0 h1;
        enforced = λ on. (
          ((both (flags FlagName.hard_limit) (flags FlagName.aiu) (flags FlagName.quota)).0 h2
              on).1,
          (is_hard_limit-mode runtime.aiu_mode).0
              ((implies_iff (flags FlagName.hard_limit) (is_hard_limit runtime.aiu_mode)).0 h4 on),
        );
        scheduled =
            (some_of (flags FlagName.reconciliation) runtime.hourly_enabled runtime.daily_enabled).0
              h5;
      },
  λ v.
      let e : (flags FlagName.aiu ≡ true) → runtime.aiu_enabled ≡ true =
        λ on. v.consistent ∙ rw (v.metered on) refl in
      (collect-empty (checks flags runtime)).1 (
        (implies_iff (flags FlagName.quota) (flags FlagName.aiu)).1 v.limited,
        (
          (both (flags FlagName.hard_limit) (flags FlagName.aiu) (flags FlagName.quota)).1
              (λ on. let q = (v.enforced on).0 in (v.limited q, q)),
          (
            (active (flags FlagName.aiu) runtime.aiu_enabled (is_disabled runtime.aiu_mode)).1
                (λ on. (e on, v.metered on)),
            (
              (implies_iff (flags FlagName.hard_limit) (is_hard_limit runtime.aiu_mode)).1
                  (λ on. (is_hard_limit-mode runtime.aiu_mode).1 (v.enforced on).1),
              (
                (some_of (flags FlagName.reconciliation) runtime.hourly_enabled
                      runtime.daily_enabled).1
                    v.scheduled,
                (
                  (consistent_iff runtime.aiu_enabled (is_disabled runtime.aiu_mode)).1
                      v.consistent,
                  tt,
                ),
              ),
            ),
          ),
        ),
      ),
)
