-- ===== src/Pipeline/Delay.antt =====
-- The delay before the next attempt: retryDelayMs of apps/worker/src/pipeline/errors.ts.
use token_pilot.Base.{ℕ, zero, suc, ◌-◌, ◌*◌, ◌^◌, ◌≡◌, ◌≤◌, ap, sym, ◌∙◌, arith}
use token_pilot.Pipeline.Errors.{min, retry_delay_ms}

pub retry_delay_ms-le : (attempt base maximum : ℕ) → retry_delay_ms attempt base maximum ≤ maximum
unfolding retry_delay_ms
retry_delay_ms-le attempt base maximum = ground arith

first : (base maximum : ℕ) → retry_delay_ms 1 base maximum ≡ min maximum base
unfolding retry_delay_ms
first base maximum = ap (min maximum) (omega arith)

power_suc : (a : ℕ) → 2 ^ suc a ≡ 2 * 2 ^ a
power_suc a = omega arith

doubled_min : (m x y : ℕ) → y ≡ 2 * x → min m y ≡ min m (2 * min m x)
doubled_min m x y h = ground arith

early :
    (a base maximum : ℕ)
    → 1 ≤ suc a
    → suc a ≤ 20
    → retry_delay_ms (suc (suc a)) base maximum
      ≡ min maximum (2 * retry_delay_ms (suc a) base maximum)
unfolding retry_delay_ms
early a base maximum _ h =
    let e1 : min 20 (suc (suc a) - 1) ≡ suc a = ground arith in
    let e2 : min 20 (suc a - 1) ≡ a = ground arith in
    let double : base * 2 ^ suc a ≡ 2 * (base * 2 ^ a) = rw power_suc (grind arith) in
    ap (λ n. min maximum (base * 2 ^ n)) e1
    ∙ (doubled_min maximum (base * 2 ^ a) (base * 2 ^ suc a) double
        ∙ ap (λ n. min maximum (2 * min maximum (base * 2 ^ n))) (sym e2))

late :
    (a base maximum : ℕ)
    → 21 ≤ suc a
    → retry_delay_ms (suc (suc a)) base maximum ≡ retry_delay_ms (suc a) base maximum
unfolding retry_delay_ms
late a base maximum h =
    let e1 : min 20 (suc (suc a) - 1) ≡ 20 = ground arith in
    let e2 : min 20 (suc a - 1) ≡ 20 = ground arith in
    ap (λ n. min maximum (base * 2 ^ n)) (e1 ∙ sym e2)

-- The delay after the first attempt is the base delay, or the maximum if that is less, and no delay
-- passes the maximum. From one attempt to the next it doubles, up to the maximum, until the
-- twenty-first attempt, and from then on it stays.
pub retry_delay_ms-doubles :
    (attempt base maximum : ℕ)
    → (retry_delay_ms 1 base maximum ≡ min maximum base)
      × ((retry_delay_ms attempt base maximum ≤ maximum)
          × ((1 ≤ attempt
                → attempt ≤ 20
                → retry_delay_ms (suc attempt) base maximum
                  ≡ min maximum (2 * retry_delay_ms attempt base maximum))
              × (21 ≤ attempt
                  → retry_delay_ms (suc attempt) base maximum
                    ≡ retry_delay_ms attempt base maximum)))
retry_delay_ms-doubles zero base maximum = (
  first base maximum,
  (retry_delay_ms-le zero base maximum, (λ h _. absurd (omega arith), λ h. absurd (omega arith))),
)
retry_delay_ms-doubles (suc a) base maximum = (
  first base maximum,
  (retry_delay_ms-le (suc a) base maximum, (early a base maximum, late a base maximum)),
)
