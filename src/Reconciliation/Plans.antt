-- ===== src/Reconciliation/Plans.antt =====
-- Planning a reconciliation run and a replay: packages/reconciliation-engine/src/run-plan.ts and
-- replay.ts. An instant is in milliseconds, or `none` if its text is not a date; of the texts that
-- are only measured, the lengths before and after `trim` are kept.
use token_pilot.Base.{
  ℕ, ◌+◌, ◌-◌, ◌*◌, ◌≤◌, ◌<◌, ◌≡◌, refl, Bool, true, false, Option, none, some, ◌&&◌, ◌||◌, not,
  ◌==◌, ltb, leb, arith, if◌then◌else◌, or-false,
}

pub data Refusal : Type 0 where
  date_invalid range_empty hour_required day_required range_too_long : Refusal
  application_required reason_required actor_required interval_uncovered : Refusal

pub data Planned (A : Type 0) : Type 0 where
  planned : A → Planned A
  refused : Refusal → Planned A

pub data RunType : Type 0 where
  hourly daily manual : RunType

pub record Text : Type 0 where
  pub length : ℕ
  pub trimmed : ℕ

pub record RunPlan : Type 0 where
  pub type : RunType
  pub start : ℕ
  pub end : ℕ
  pub asynchronous : Bool

abbrev pub is_manual : RunType → Bool
is_manual manual = true
is_manual _ = false

abbrev pub is_hourly : RunType → Bool
is_hourly hourly = true
is_hourly _ = false

abbrev pub is_daily : RunType → Bool
is_daily daily = true
is_daily _ = false

abbrev pub hour : ℕ
hour = 3600000

abbrev pub day : ℕ
day = 86400000

unfoldable pub plan_dates : RunType → ℕ → ℕ → Text → Planned RunPlan
plan_dates type start end application =
    if leb end start
    then refused range_empty
    else if is_hourly type && not (end - start == hour)
    then refused hour_required
    else if is_daily type && not (end - start == day)
    then refused day_required
    else if ltb (366 * day) (end - start)
    then refused range_too_long
    else if application.trimmed == 0
    then refused application_required
    else planned (record {
      type = type;
      start = start;
      end = end;
      asynchronous = not (is_manual type) || ltb hour (end - start);
    })

unfoldable pub plan_reconciliation_run : RunType → Option ℕ → Option ℕ → Text → Planned RunPlan
plan_reconciliation_run type none end application = refused date_invalid
plan_reconciliation_run type (some start) none application = refused date_invalid
plan_reconciliation_run type (some start) (some end) application =
    plan_dates type start end application

-- The ranges that a run may have.
pub record Runnable (p : RunPlan) : Type 0 where
  pub ordered : p.start < p.end
  pub exact_hour : is_hourly p.type ≡ true → p.end ≡ p.start + hour
  pub exact_day : is_daily p.type ≡ true → p.end ≡ p.start + day
  pub bounded : p.end ≤ p.start + 366 * day
  pub long_in_background : p.asynchronous ≡ false → p.end ≤ p.start + hour

pub refused_if :
    {A : Type 0} (b : Bool) (e : Refusal) (m : Planned A) (p : A)
    → (if b then refused e else m) ≡ planned p
    → (b ≡ false) × (m ≡ planned p)
refused_if true e m p h = let h' : refused e ≡ planned p = h in cc
refused_if false e m p h = (refl, h)

plan_dates-Runnable :
    (type : RunType) (start end : ℕ) (application : Text) (p : RunPlan)
    → plan_dates type start end application ≡ planned p
    → Runnable p
unfolding plan_dates
plan_dates-Runnable type start end application p h =
    let (b1, h1) = refused_if (leb end start) range_empty _ p h in
    let (b2, h2) = refused_if (is_hourly type && not (end - start == hour)) hour_required _ p h1 in
    let (b3, h3) = refused_if (is_daily type && not (end - start == day)) day_required _ p h2 in
    let (b4, h4) = refused_if (ltb (366 * day) (end - start)) range_too_long _ p h3 in
    let (b5, h5) = refused_if (application.trimmed == 0) application_required _ p h4 in
    made h5 b1 b2 b3 b4
  where
    plan : RunPlan
    plan = record {
      type = type;
      start = start;
      end = end;
      asynchronous = not (is_manual type) || ltb hour (end - start);
    }

    made :
        planned plan ≡ planned p
        → leb end start ≡ false
        → (is_hourly type && not (end - start == hour)) ≡ false
        → (is_daily type && not (end - start == day)) ≡ false
        → ltb (366 * day) (end - start) ≡ false
        → Runnable p
    made h b1 b2 b3 b4 =
        let same : plan ≡ p = cc in
        let before : start < end = ground arith in
        rw (← same) (record {
          ordered = before;
          exact_hour =
              λ is. let width : end - start ≡ hour = ground arith in omega (arith, width, before);
          exact_day =
              λ is. let width : end - start ≡ day = ground arith in omega (arith, width, before);
          bounded = let width : end - start ≤ 366 * day = ground arith in omega (arith, width);
          long_in_background = λ is.
              let short : ltb hour (end - start) ≡ false = (or-false _ _ is).1 in
              let width : end - start ≤ hour = ground arith in omega (arith, width);
        })

-- A planned run covers a range of at most 366 days that is not empty, of exactly one hour or one day
-- if it is an hourly or a daily run, and runs in the background unless it is at most an hour long.
pub plan_reconciliation_run-Runnable :
    (type : RunType) (start end : Option ℕ) (application : Text) (p : RunPlan)
    → plan_reconciliation_run type start end application ≡ planned p
    → Runnable p
unfolding plan_reconciliation_run
plan_reconciliation_run-Runnable type none end application p h =
    let h' : refused date_invalid ≡ planned p = h in cc
plan_reconciliation_run-Runnable type (some start) none application p h =
    let h' : refused date_invalid ≡ planned p = h in cc
plan_reconciliation_run-Runnable type (some start) (some end) application p h =
    plan_dates-Runnable type start end application p h
