-- ===== src/Rating/Laws.antt =====
-- What the code relies on of decimal.js, which rounds a sum to 20 significant digits.
use token_pilot.Base.{ℕ, ◌+◌, ◌≤◌, ◌≡◌, false}
use token_pilot.Rating.{Decimals}

-- Every integer up to here has at most 20 significant digits.
unfoldable pub largest_exact : ℕ
largest_exact = 100000000000000000000

-- A decimal is no less, or no more, than an integer.
abbrev pub AtLeast : (dec : Decimals) → ℕ → dec.D → Type 0
AtLeast dec n x = dec.greater (dec.of_micros n) x ≡ false

abbrev pub AtMost : (dec : Decimals) → ℕ → dec.D → Type 0
AtMost dec n x = dec.greater x (dec.of_micros n) ≡ false

-- A rounded sum is on the same side of an integer that 20 digits hold as the sum; `floor` is the
-- integer below, and rounding to an integer does not pass over one.
pub record Laws (dec : Decimals) : Type 0 where
  pub zero_low : AtLeast dec 0 dec.zero
  pub zero_high : AtMost dec 0 dec.zero
  pub add_low :
      (a b : ℕ) (x y : dec.D)
      → AtLeast dec a x
      → AtLeast dec b y
      → a + b ≤ largest_exact
      → AtLeast dec (a + b) (dec.add x y)
  pub add_high :
      (a b : ℕ) (x y : dec.D)
      → AtMost dec a x
      → AtMost dec b y
      → a + b ≤ largest_exact
      → AtMost dec (a + b) (dec.add x y)
  pub floor_low : (x : dec.D) → AtLeast dec (dec.floor x) x
  pub floor_high : (x : dec.D) → AtMost dec (dec.floor x + 1) x
  pub round_low : (a : ℕ) (x : dec.D) → AtLeast dec a x → a ≤ dec.round x
  pub round_high : (b : ℕ) (x : dec.D) → AtMost dec b x → dec.round x ≤ b
