-- ===== src/Base/Sort.antt =====
-- `Array.prototype.sort` and SQL `ORDER BY`: a stable insertion sort by a Boolean order.
use Prim.Native.Nat.{suc, ◌+◌}
use mathlib.Core.Path.{◌≡◌, refl, ap, ◌∙◌}
use mathlib.Core.Logic.{◌↔◌, inl, inr}
use mathlib.Core.Bool.{Bool}
use mathlib.Core.List.{List, [], ◌∷◌}
use native.Mathlib.Omega.{arith}
use token_pilot.Base.Tests.{if◌then◌else◌, Bool-cases}
use token_pilot.Base.Lists.{count_where, length, All}

module _ {ℓ} {A : Type ℓ} (before : A → A → Bool) where
  -- Place `x` in front of the first entry that does not come before it.
  abbrev pub insert_by : A → List A → List A
  insert_by x [] = x ∷ []
  insert_by x (y ∷ ys) = if before y x then y ∷ insert_by x ys else x ∷ y ∷ ys

  abbrev pub sort_by : List A → List A
  sort_by [] = []
  sort_by (x ∷ xs) = insert_by x (sort_by xs)

  -- Sorting keeps how many entries satisfy a test.
  count_where-insert_by :
      (p : A → Bool) (x : A) (xs : List A) → count_where p (insert_by x xs) ≡ count_where p (x ∷ xs)
  count_where-insert_by p x [] = refl
  count_where-insert_by p x (y ∷ ys) = elim (Bool-cases (before y x)) [
    | inl later ↦ rw later (omega (arith, count_where-insert_by p x ys))
    | inr here ↦ rw here refl
  ]

  pub count_where-sort_by :
      (p : A → Bool) (xs : List A) → count_where p (sort_by xs) ≡ count_where p xs
  count_where-sort_by p [] = refl
  count_where-sort_by p (x ∷ xs) =
      count_where-insert_by p x (sort_by xs)
      ∙ ap (λ n. (if p x then 1 else 0) + n) (count_where-sort_by p xs)

  length-insert_by : (x : A) (xs : List A) → length (insert_by x xs) ≡ suc (length xs)
  length-insert_by x [] = refl
  length-insert_by x (y ∷ ys) = elim (Bool-cases (before y x)) [
    | inl later ↦ rw later (ap suc (length-insert_by x ys))
    | inr here ↦ rw here refl
  ]

  pub length-sort_by : (xs : List A) → length (sort_by xs) ≡ length xs
  length-sort_by [] = refl
  length-sort_by (x ∷ xs) = length-insert_by x (sort_by xs) ∙ ap suc (length-sort_by xs)

-- Sorting keeps what holds of every entry.
module _ {ℓ κ} {A : Type ℓ} (before : A → A → Bool) (P : A → Type κ) where
  pub All-insert_by : (x : A) (xs : List A) → All P (insert_by before x xs) ↔ (P x × All P xs)
  All-insert_by x [] = (λ h. h, λ h. h)
  All-insert_by x (y ∷ ys) = elim (Bool-cases (before y x)) [
    | inr here ↦ rw here (λ h. h, λ h. h)
    | inl later ↦
        let (to, from) = All-insert_by x ys in
        rw later (λ h. let (hx, hs) = to h.1 in (hx, (h.0, hs)), λ h. (h.1.0, from (h.0, h.1.1)))
  ]

  pub All-sort_by : (xs : List A) → All P (sort_by before xs) ↔ All P xs
  All-sort_by [] = (λ h. h, λ h. h)
  All-sort_by (x ∷ xs) =
      let (to, from) = All-sort_by xs in
      let (out, in_) = All-insert_by x (sort_by before xs) in
      (λ h. let (hx, hs) = out h in (hx, to hs), λ h. in_ (h.0, from h.1))
