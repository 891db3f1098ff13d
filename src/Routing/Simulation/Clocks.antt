-- ===== src/Routing/Simulation/Clocks.antt =====
-- The control API reads a clock text as the SDK does.
use token_pilot.Base.{ℕ, ◌+◌, ◌-◌, ◌*◌, ◌/◌, ◌%◌, ◌<◌, ◌≡◌, false, ◌==◌, arith}
use token_pilot.Routing.Matching.{Clock, clock_minute}
use token_pilot.Routing.Simulation.{clock_text, split_colon, number_of, simulated_clock_minute}

two_digits : (n : ℕ) → n < 100 → (48 + n / 10 - 48) * 10 + (48 + n % 10 - 48) ≡ n
two_digits n h = omega arith

pub simulated_clock_minute-eq :
    (c : Clock)
    → c.hour < 24
    → c.minute < 60
    → simulated_clock_minute (clock_text c) ≡ clock_minute c
unfolding simulated_clock_minute split_colon number_of
simulated_clock_minute-eq c h m =
    let h1 : (48 + c.hour / 10 == 58) ≡ false = ground arith in
    let h2 : (48 + c.hour % 10 == 58) ≡ false = ground arith in
    let m1 : (48 + c.minute / 10 == 58) ≡ false = ground arith in
    let m2 : (48 + c.minute % 10 == 58) ≡ false = ground arith in rw (h1, h2, m1, m2) (omega arith)
