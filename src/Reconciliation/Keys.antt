-- ===== src/Reconciliation/Keys.antt =====
-- All keys of two snapshots: a reconciliation reports nothing exactly when they agree.
use mathlib.Core.Bool.{true≢false}
use token_pilot.Base.{
  ℕ, ◌≡◌, ◌↔◌, refl, sym, true, false, Option, none, some, List, [], ◌∷◌, ◌++◌, ◌==◌, ltb, arith,
  includes, inl, inr, Bool-cases, All,
}
use token_pilot.Base.Sort.{sort_by, All-sort_by}
use token_pilot.Reconciliation.{
  Costs, Row, Tolerance, keys_diffs, keys_of, unique, Watermark, is_stalled, when, watermark_diffs,
  reconcile_snapshots,
}
use token_pilot.Reconciliation.Clean.{KeyClean, key_diffs-KeyClean, KeyClean-key_diffs, when-nil}

append-nil : {A : Type 0} (xs ys : List A) → xs ++ ys ≡ [] → (xs ≡ []) × (ys ≡ [])
append-nil [] ys h = (refl, h)
append-nil (x ∷ xs) ys h = let h' : x ∷ (xs ++ ys) ≡ [] = h in cc

All-append :
    {A : Type 0} (P : A → Type 0) (xs ys : List A) → All P (xs ++ ys) ↔ (All P xs × All P ys)
All-append P [] ys = (λ h. (tt, h), λ h. h.1)
All-append P (x ∷ xs) ys =
    let (to, from) = All-append P xs ys in
    (λ h. let (l, r) = to h.1 in ((h.0, l), r), λ h. (h.0.0, from (h.0.1, h.1)))

All-includes : (P : ℕ → Type 0) (x : ℕ) (xs : List ℕ) → includes x xs ≡ true → All P xs → P x
All-includes P x [] h all = absurd (true≢false (sym h))
All-includes P x (y ∷ ys) h all = elim (Bool-cases (x == y)) [
  | inl same ↦ let at : y ≡ x = ground arith in rw at at (all.0)
  | inr other ↦ All-includes P x ys (rw other at h) all.1
]

module _ (costs : Costs) where
  All-unique : (P : ℕ → Type 0) (xs : List ℕ) → All P (unique costs xs) ↔ All P xs
  unfolding unique
  All-unique P [] = (λ h. h, λ h. h)
  All-unique P (x ∷ xs) =
      let (to, from) = All-unique P xs in
      elim (Bool-cases (includes x (unique costs xs))) [
        | inl known ↦
            rw known (λ h. (All-includes P x (unique costs xs) known h, to h), λ h. from h.1)
        | inr new ↦ rw new (λ h. (h.0, to h.1), λ h. (h.0, from h.1))
      ]

  module _ (tolerance : Tolerance costs) (pg ch : List (Row costs)) where
    keys_diffs-nil :
        (ks : List ℕ)
        → (keys_diffs costs tolerance ks pg ch ≡ []) ↔ All (KeyClean costs tolerance pg ch) ks
    unfolding keys_diffs
    keys_diffs-nil [] = (λ _. tt, λ _. refl)
    keys_diffs-nil (k ∷ ks) =
        let (to, from) = keys_diffs-nil ks in
        (
          λ h.
              let (here, later) = append-nil _ _ h in
              (key_diffs-KeyClean costs tolerance pg ch k here, to later),
          λ h. rw (KeyClean-key_diffs costs tolerance pg ch k h.0, from h.1) refl,
        )

    -- The projection has not fallen behind for too long.
    abbrev pub Current : Option (Watermark costs tolerance) → Type 0
    Current none = Unit
    Current (some w) = is_stalled costs tolerance w ≡ false

    watermark-nil :
        (w : Option (Watermark costs tolerance))
        → (watermark_diffs costs tolerance w ≡ []) ↔ Current w
    unfolding watermark_diffs when
    watermark-nil none = (λ _. tt, λ _. refl)
    watermark-nil (some w) = (λ h. (when-nil costs _ _ _ h).0, λ h. rw h refl)

    -- A reconciliation reports nothing exactly when every key of either snapshot has one row on each
    -- side, without physical duplicates, the two rows agree within the tolerances with nothing late
    -- or uncorrected, and the watermark has not stalled.
    pub reconcile_snapshots-KeyClean :
        (w : Option (Watermark costs tolerance))
        → (reconcile_snapshots costs tolerance pg ch w ≡ []) ↔ (
            All (KeyClean costs tolerance pg ch) (keys_of costs tolerance pg)
            × All (KeyClean costs tolerance pg ch) (keys_of costs tolerance ch)
            × Current w)
    unfolding reconcile_snapshots
    reconcile_snapshots-KeyClean w =
        let P = KeyClean costs tolerance pg ch in
        let keys = keys_of costs tolerance pg ++ keys_of costs tolerance ch in
        let (sorted, unsorted) = All-sort_by ltb P (unique costs keys) in
        let (all, some_) = All-unique P keys in
        let (halves, whole) =
          All-append P (keys_of costs tolerance pg) (keys_of costs tolerance ch) in
        let (clean, none_found) = keys_diffs-nil (sort_by ltb (unique costs keys)) in
        let (current, no_stall) = watermark-nil w in
        (
          λ h.
              let (first, second) = append-nil _ _ h in
              let (left, right) = halves (all (sorted (clean first))) in
              (left, right, current second),
          λ h. rw (none_found (unsorted (some_ (whole (h.0, h.1)))), no_stall h.2) refl,
        )
