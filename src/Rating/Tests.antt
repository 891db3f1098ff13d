-- ===== src/Rating/Tests.antt =====
-- Decimals with one digit after the point whose sums are rounded to 20 significant digits, and an event of three lines.
use token_pilot.Base.{
  ℕ, ◌+◌, ◌*◌, ◌/◌, ◌%◌, ◌≡◌, refl, List, [], ◌∷◌, none, some, ltb, ◌==◌, arith, if◌then◌else◌,
}
use token_pilot.Rating.{
  Decimals, Line, Version, rate_application_aiu, rate_for, draft, drafts, raw_total, rated, floors,
}
use token_pilot.Rating.Laws.{largest_exact, Laws}
use token_pilot.Rating.Total.{charged_total, rate_application_aiu-total}

-- A sum of more than 20 digits loses its last one.
abbrev rounded_sum : ℕ → ℕ
rounded_sum s = if ltb s 100000000000000000000 then s else (s + 5) / 10 * 10

abbrev tenths : Decimals
tenths = record {
  D = ℕ;
  zero = 0;
  is_zero = λ x. x == 0;
  add = λ x y. rounded_sum (x + y);
  mul = λ x y. x * y / 10;
  div = λ x y. x * 10 / y;
  of_micros = λ n. n * 10;
  floor = λ x. x / 10;
  round = λ x. (x + 5) / 10;
  fraction = λ x. x % 10;
  greater = λ x y. ltb y x;
}

tenths-Laws : Laws tenths
unfolding largest_exact
tenths-Laws = record {
  zero_low = refl;
  zero_high = refl;
  add_low = λ a b x y l m fits. ground arith;
  add_high = λ a b x y l m fits. ground arith;
  floor_low = λ x. ground arith;
  floor_high = λ x. ground arith;
  round_low = λ a x l. ground arith;
  round_high = λ b x l. ground arith;
}

abbrev version : Version tenths
version = record {
  id = 1;
  items =
      record { id = 1; usage_type = 1; unit_key = 0; unit_size = 30; micros_per_unit = 1 }
      ∷ record { id = 2; usage_type = 2; unit_key = 0; unit_size = 30; micros_per_unit = 1 }
      ∷ record { id = 3; usage_type = 3; unit_key = 4; unit_size = 30; micros_per_unit = 2 }
      ∷ [];
}

abbrev lines : List (Line tenths)
lines =
    record { usage_type = 1; unit_key = none; quantity = 50 }
    ∷ record { usage_type = 2; unit_key = none; quantity = 20 }
    ∷ record { usage_type = 3; unit_key = some 4; quantity = 50 }
    ∷ []

rate_application_aiu-total_example :
    charged_total tenths
      (1 ∷ 2 ∷ 3 ∷ [])
      9
      (rate_application_aiu tenths (1 ∷ 2 ∷ 3 ∷ []) 9 (some version) lines).lines
    ≡ 5
unfolding rate_application_aiu rated raw_total drafts draft rate_for floors largest_exact
rate_application_aiu-total_example =
    rate_application_aiu-total tenths (1 ∷ 2 ∷ 3 ∷ []) 9 tenths-Laws (some version) lines 5
      (omega arith) refl
