-- ===== src/Base/Search.antt =====
-- The first member of a list that has a property, and whether there is one.
use mathlib.Core.Path.{◌≡◌, refl}
use mathlib.Core.Logic.{inl, inr}
use mathlib.Core.Bool.{Bool, true, false, ◌||◌}
use mathlib.Core.Option.{none, some}
use mathlib.Core.List.{List, [], ◌∷◌, ◌++◌}
use native.Mathlib.Omega.{arith}
use token_pilot.Base.Tests.{Bool-cases, if◌then◌else◌}
use token_pilot.Base.Lists.{any, find}

module _ {ℓ} {A : Type ℓ} (p : A → Bool) where
  pub find-none : (xs : List A) → any p xs ≡ false → find p xs ≡ none
  find-none [] h = refl
  find-none (x ∷ xs) h = ground (arith, find-none xs)

  pub any-find-none : (xs : List A) → find p xs ≡ none → any p xs ≡ false
  any-find-none [] h = refl
  any-find-none (x ∷ xs) h = ground (arith, any-find-none xs)

  pub any-append : (xs ys : List A) → any p (xs ++ ys) ≡ (any p xs || any p ys)
  any-append [] ys = refl
  any-append (x ∷ xs) ys = ground (arith, any-append xs ys)

  pub find-append_one :
      (xs : List A) (x : A)
      → any p xs ≡ false
      → find p (xs ++ (x ∷ [])) ≡ (if p x then some x else none)
  find-append_one [] x h = refl
  find-append_one (y ∷ xs) x h = ground (arith, find-append_one xs x)

  pub find-append_miss : (xs : List A) (x : A) → p x ≡ false → find p (xs ++ (x ∷ [])) ≡ find p xs
  find-append_miss [] x h = rw h refl
  find-append_miss (y ∷ xs) x h = ground (arith, find-append_miss xs x h)

  pub any-find : (xs : List A) (x : A) → find p xs ≡ some x → any p xs ≡ true
  any-find [] x h = cc
  any-find (y ∷ xs) x h = ground (arith, any-find xs x)

  pub find-any : (xs : List A) → any p xs ≡ true → (x : A) × (find p xs ≡ some x)
  find-any [] h = cc
  find-any (y ∷ xs) h = elim (Bool-cases (p y)) [
    | inl hit ↦ (y, rw hit refl)
    | inr miss ↦ let (x, e) = find-any xs (rw miss at h) in (x, rw miss e)
  ]

  pub find-append_hit : (xs ys : List A) (x : A) → find p xs ≡ some x → find p (xs ++ ys) ≡ some x
  find-append_hit [] ys x h = cc
  find-append_hit (y ∷ xs) ys x h = ground (arith, find-append_hit xs ys x)
