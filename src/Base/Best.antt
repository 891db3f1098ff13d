-- ===== src/Base/Best.antt =====
-- The first entry of a sorted list that satisfies a test: none that satisfies it comes before it.
use mathlib.Core.Path.{◌≡◌, sym, ◌∙◌}
use mathlib.Core.Logic.{inl, inr}
use mathlib.Core.Bool.{Bool, true, false, true≢false}
use mathlib.Core.Option.{none, some}
use mathlib.Core.List.{List, [], ◌∷◌, Mem, mem-cons_self, mem-cons_of_mem}
use token_pilot.Base.Tests.{Bool-cases}
use token_pilot.Base.Lists.{find, All, All-map}
use token_pilot.Base.Sort.{sort_by, insert_by, All-sort_by, All-insert_by}

-- `before` is a strict order, where not coming before is transitive.
module _ {A : Type 0} (before : A → A → Bool)
    (asymmetric : (x y : A) → before x y ≡ true → before y x ≡ false)
    (transitive : (x y z : A) → before z y ≡ false → before y x ≡ false → before z x ≡ false) where
  abbrev Sorted : List A → Type 0
  Sorted [] = Unit
  Sorted (x ∷ xs) = All (λ y. before y x ≡ false) xs × Sorted xs

  insert_by-Sorted : (x : A) (xs : List A) → Sorted xs → Sorted (insert_by before x xs)
  insert_by-Sorted x [] h = (tt, tt)
  insert_by-Sorted x (y ∷ ys) h = elim (Bool-cases (before y x)) [
    | inl later ↦ rw later (
      (All-insert_by before (λ z. before z y ≡ false) x ys).1 (asymmetric y x later, h.0),
      insert_by-Sorted x ys h.1,
    )
    | inr here ↦ rw here ((here, All-map (λ z worse. transitive x y z worse here) ys h.0), h)
  ]

  sort_by-Sorted : (xs : List A) → Sorted (sort_by before xs)
  sort_by-Sorted [] = tt
  sort_by-Sorted (x ∷ xs) = insert_by-Sorted x (sort_by before xs) (sort_by-Sorted xs)

  irreflexive : (x : A) → before x x ≡ false
  irreflexive x = elim (Bool-cases (before x x)) [ inl h ↦ asymmetric x x h | inr h ↦ h ]

  find-Sorted :
      (p : A → Bool) (xs : List A) (x : A)
      → Sorted xs
      → find p xs ≡ some x
      → All (λ y. p y ≡ true → before y x ≡ false) xs
  find-Sorted p [] x h e = tt
  find-Sorted p (y ∷ ys) x h e = elim (Bool-cases (p y)) [
    | inl hit ↦
        let e' : some y ≡ some x = rw hit at e in
        let same : y ≡ x = cc in
        ((λ _. rw (← same) (irreflexive y)), All-map (λ z worse _. rw same at worse) ys h.0)
    | inr miss ↦
        ((λ hit. absurd (true≢false (sym hit ∙ miss))), find-Sorted p ys x h.1 (rw miss at e))
  ]

  pub find-sort_by :
      (p : A → Bool) (xs : List A) (x : A)
      → find p (sort_by before xs) ≡ some x
      → All (λ y. p y ≡ true → before y x ≡ false) xs
  find-sort_by p xs x e =
      (All-sort_by before (λ y. p y ≡ true → before y x ≡ false) xs).0
        (find-Sorted p (sort_by before xs) x (sort_by-Sorted xs) e)

find-none : {A : Type 0} (p : A → Bool) (xs : List A) → find p xs ≡ none → All (λ y. p y ≡ false) xs
find-none p [] e = tt
find-none p (y ∷ ys) e = elim (Bool-cases (p y)) [
  | inl hit ↦ let e' : some y ≡ none = rw hit at e in cc
  | inr miss ↦ (miss, find-none p ys (rw miss at e))
]

pub find-sort_by-none :
    {A : Type 0} (before : A → A → Bool) (p : A → Bool) (xs : List A)
    → find p (sort_by before xs) ≡ none
    → All (λ y. p y ≡ false) xs
find-sort_by-none before p xs e =
    (All-sort_by before (λ y. p y ≡ false) xs).0 (find-none p (sort_by before xs) e)

pub find-All :
    {A : Type 0} (P : A → Type 0) (p : A → Bool) (xs : List A) (x : A)
    → find p xs ≡ some x
    → All P xs
    → P x
find-All P p [] x e h = cc
find-All P p (y ∷ ys) x e h = elim (Bool-cases (p y)) [
  | inl hit ↦ let e' : some y ≡ some x = rw hit at e in let same : y ≡ x = cc in rw same at h.0
  | inr miss ↦ find-All P p ys x (rw miss at e) h.1
]

pub All-Mem : {A : Type 0} (xs : List A) → All (λ x. Mem x xs) xs
All-Mem [] = tt
All-Mem (x ∷ xs) = (mem-cons_self, All-map (λ y m. mem-cons_of_mem x m) xs (All-Mem xs))
