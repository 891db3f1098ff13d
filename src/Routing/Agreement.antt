-- ===== src/Routing/Agreement.antt =====
-- The control API's simulation of a condition against the SDK's evaluation of it.
use token_pilot.Base.{
  ℕ, ◌≡◌, ◌≢◌, ◌<◌, refl, sym, Bool, true, false, ◌&&◌, Option, none, some, List, [], ◌∷◌, includes,
  All, ◌==◌, arith,
}
use token_pilot.Routing.Matching.{
  Match, override_active, users, user_property, call_source, schedule, is_set, is_not_set, equals,
  not_equals, starts_with, contains, Scalar, text, number, flag, Property, undefined, null, scalar,
  array, Context, Local, Schedule, Clock, string_of, property_matches, is_live, or_empty,
  match_applies, schedule_matches,
}
use token_pilot.Routing.Simulation.{
  simulated_schedule_matches, simulated_property_matches, is_empty_text, includes_user,
  runtime_match_applies,
}
use token_pilot.Routing.Simulation.Clocks.{simulated_clock_minute-eq}

-- The SDK asks an override, besides, whether it has expired.
abbrev pub in_force : Match → Option ℕ → ℕ → Bool
in_force override_active expires_at now = is_live expires_at now
in_force _ expires_at now = true

abbrev pub IsClock : Clock → Type 0
IsClock c = (c.hour < 24) × (c.minute < 60)

and_true : (b : Bool) → (b && true) ≡ b
and_true true = refl
and_true false = refl

-- What the schema of a condition asks of its identifiers and clocks, and a prefix that is not empty,
-- which the schema does not ask.
abbrev pub Comparable : Match → Type 0
Comparable override_active = Unit
Comparable (users ids) = All (λ id. id ≢ 0) ids
Comparable (user_property key starts_with v) = is_empty_text (string_of v) ≡ false
Comparable (user_property key operator v) = Unit
Comparable (call_source source) = Unit
Comparable (schedule s) = IsClock s.start × IsClock s.end

set-agrees :
    (p : Property) (v : Scalar)
    → property_matches is_set p v ≡ simulated_property_matches is_set p v
unfolding property_matches simulated_property_matches
set-agrees undefined v = refl
set-agrees null v = refl
set-agrees (scalar s) v = refl
set-agrees (array vs) v = refl

not_set-agrees :
    (p : Property) (v : Scalar)
    → property_matches is_not_set p v ≡ simulated_property_matches is_not_set p v
unfolding property_matches simulated_property_matches
not_set-agrees undefined v = refl
not_set-agrees null v = refl
not_set-agrees (scalar s) v = refl
not_set-agrees (array vs) v = refl

equals-agrees :
    (p : Property) (v : Scalar)
    → property_matches equals p v ≡ simulated_property_matches equals p v
unfolding property_matches simulated_property_matches
equals-agrees undefined v = refl
equals-agrees null v = refl
equals-agrees (scalar s) v = refl
equals-agrees (array vs) v = refl

not_equals-agrees :
    (p : Property) (v : Scalar)
    → property_matches not_equals p v ≡ simulated_property_matches not_equals p v
unfolding property_matches simulated_property_matches
not_equals-agrees undefined v = refl
not_equals-agrees null v = refl
not_equals-agrees (scalar s) v = refl
not_equals-agrees (array vs) v = refl

starts_with-agrees :
    (p : Property) (v : Scalar)
    → is_empty_text (string_of v) ≡ false
    → property_matches starts_with p v ≡ simulated_property_matches starts_with p v
unfolding property_matches simulated_property_matches
starts_with-agrees undefined v h = refl
starts_with-agrees null v h = refl
starts_with-agrees (scalar (text s)) v h = rw h refl
starts_with-agrees (scalar (number n s)) v h = refl
starts_with-agrees (scalar (flag b s)) v h = refl
starts_with-agrees (array vs) v h = refl

contains-agrees :
    (p : Property) (v : Scalar)
    → property_matches contains p v ≡ simulated_property_matches contains p v
unfolding property_matches simulated_property_matches
contains-agrees undefined v = refl
contains-agrees null v = refl
contains-agrees (scalar (text s)) v = refl
contains-agrees (scalar (number n s)) v = refl
contains-agrees (scalar (flag b s)) v = refl
contains-agrees (array vs) v = refl

no_empty_id : (ids : List ℕ) → All (λ id. id ≢ 0) ids → includes 0 ids ≡ false
no_empty_id [] h = refl
no_empty_id (id ∷ ids) (h, hs) =
    let off : (0 == id) ≡ false = ground arith in rw off (no_empty_id ids hs)

user-agrees :
    (u : Option ℕ) (ids : List ℕ)
    → All (λ id. id ≢ 0) ids
    → includes (or_empty u) ids ≡ includes_user u ids
user-agrees none ids h = no_empty_id ids h
user-agrees (some u) ids h = refl

schedule-agrees :
    (s : Schedule) (local : Local)
    → IsClock s.start
    → IsClock s.end
    → schedule_matches s local ≡ simulated_schedule_matches s local
unfolding schedule_matches simulated_schedule_matches
schedule-agrees s local h k =
    rw (simulated_clock_minute-eq s.start h.0 h.1, simulated_clock_minute-eq s.end k.0 k.1) refl

-- The SDK applies a condition exactly when the simulation of the control API does and, if it is an
-- override, the override has not expired. The identifiers of a condition on users are not empty, nor
-- is a prefix, and the clocks of a schedule are times of a day.
pub match_applies-simulated :
    (m : Match) (expires_at : Option ℕ) (local : Local) (now : ℕ) (c : Context)
    → Comparable m
    → match_applies m expires_at local now c
      ≡ (in_force m expires_at now && runtime_match_applies (some m) local c)
unfolding match_applies runtime_match_applies
match_applies-simulated override_active expires_at local now c h =
    sym (and_true (is_live expires_at now))
match_applies-simulated (users ids) expires_at local now c h = user-agrees c.user_id ids h
match_applies-simulated (user_property key is_set v) expires_at local now c h =
    set-agrees (c.properties key) v
match_applies-simulated (user_property key is_not_set v) expires_at local now c h =
    not_set-agrees (c.properties key) v
match_applies-simulated (user_property key equals v) expires_at local now c h =
    equals-agrees (c.properties key) v
match_applies-simulated (user_property key not_equals v) expires_at local now c h =
    not_equals-agrees (c.properties key) v
match_applies-simulated (user_property key starts_with v) expires_at local now c h =
    starts_with-agrees (c.properties key) v h
match_applies-simulated (user_property key contains v) expires_at local now c h =
    contains-agrees (c.properties key) v
match_applies-simulated (call_source source) expires_at local now c h = refl
match_applies-simulated (schedule s) expires_at local now c h = schedule-agrees s local h.0 h.1
