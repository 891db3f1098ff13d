-- ===== src/Rating/Selection.antt =====
-- Which lines get one more: as many as asked for, if there are so many lines.
use token_pilot.Base.{
  ℕ, zero, suc, ◌+◌, ◌≤◌, ◌<◌, ◌≡◌, refl, sym, ◌∙◌, ap, Bool, false, List, [], ◌∷◌, map, ◌||◌, ◌==◌,
  arith, if◌then◌else◌, take, length, count_where, includes, Bool-cases, inl, inr, ==-self, Option,
  none, some,
}
use token_pilot.Base.Sort.{sort_by, count_where-sort_by}
use token_pilot.Rating.{
  Decimals, Line, RateItem, Draft, draft, drafts, selected, skipped, takes_before, key_of, rate_for,
}

module _ (dec : Decimals) where
  abbrev pub has_index : ℕ → Draft dec → Bool
  has_index i d = d.index == i

  -- No two drafts have the same index.
  abbrev pub Unique : List (Draft dec) → Type 0
  Unique ds = (i : ℕ) → count_where (has_index i) ds ≤ 1

  count_where-false : (ds : List (Draft dec)) → count_where (λ _. false) ds ≡ 0
  count_where-false [] = refl
  count_where-false (d ∷ ds) = omega (arith, count_where-false ds)

  count_where-or :
      (i : ℕ) (p : Draft dec → Bool) (ds : List (Draft dec))
      → count_where (has_index i) ds ≡ 0
      → count_where (λ d. has_index i d || p d) ds ≡ count_where p ds
  count_where-or i p [] h = refl
  count_where-or i p (d ∷ ds) h = elim (Bool-cases (d.index == i)) [
    | inl hit ↦ absurd (ground (arith, hit))
    | inr miss ↦
        rw miss (ap (λ n. (if p d then 1 else 0) + n) (count_where-or i p ds (ground arith)))
  ]

  count_where-taken :
      (k : ℕ) (ds : List (Draft dec))
      → Unique ds
      → count_where (λ d. includes d.index (map (λ e. e.index) (take k ds))) ds ≡ length (take k ds)
  count_where-taken zero ds unique = count_where-false ds
  count_where-taken (suc k) [] unique = refl
  count_where-taken (suc k) (d ∷ ds) unique =
      let once : 1 + count_where (has_index d.index) ds ≤ 1 =
        rw (==-self d.index) at (unique d.index) in
      let rest : Unique ds = λ i. let whole = unique i in ground arith in
      let others =
        count_where-or d.index (λ e. includes e.index (map (λ e. e.index) (take k ds))) ds
          (omega (arith, once)) in
      let induction = count_where-taken k ds rest in
      rw (==-self d.index) (omega (arith, others, induction))

  -- What `drafts` makes has the indices from its start on, each once.
  module _ (rateable : List ℕ) (request : ℕ) (items : List (RateItem dec)) where
    draft-index :
        (n : ℕ) (line : Line dec) (o : Option (RateItem dec))
        → (draft dec rateable request n line o).index ≡ n
    unfolding draft
    draft-index n line none = refl
    draft-index n line (some rate) = refl

    drafts-from :
        (n i : ℕ) (lines : List (Line dec))
        → i < n
        → count_where (has_index i) (drafts dec rateable request items n lines) ≡ 0
    unfolding drafts
    drafts-from n i [] below = refl
    drafts-from n i (line ∷ lines) below =
        let later = drafts-from (n + 1) i lines (omega (arith, below)) in
        elim (Bool-cases (skipped dec rateable request line)) [
          | inl out ↦ rw out later
          | inr kept ↦
              let other : (n == i) ≡ false = ground arith in
              rw
                (
                  kept,
                  draft-index n line (
                      rate_for dec rateable request items line.usage_type
                        (key_of dec rateable request line.unit_key)),
                  other,
                )
                (omega (arith, later))
        ]

    pub drafts-Unique :
        (n : ℕ) (lines : List (Line dec)) → Unique (drafts dec rateable request items n lines)
    unfolding drafts
    drafts-Unique n [] i = omega arith
    drafts-Unique n (line ∷ lines) i =
        let later = drafts-Unique (n + 1) lines i in
        elim (Bool-cases (skipped dec rateable request line)) [
          | inl out ↦ rw out later
          | inr kept ↦
              rw
                (
                  kept,
                  draft-index n line (
                      rate_for dec rateable request items line.usage_type
                        (key_of dec rateable request line.unit_key)),
                )
                (elim (Bool-cases (n == i)) [
                  | inl here ↦
                      let none_later = drafts-from (n + 1) i lines (ground arith) in
                      rw here (omega (arith, none_later))
                  | inr other ↦ rw other (omega (arith, later))
                ])
        ]

  -- Sorting by fraction changes neither the number of drafts nor their indices.
  pub count_where-selected :
      (rateable : List ℕ) (request additions : ℕ) (ds : List (Draft dec))
      → Unique ds
      → count_where (λ d. includes d.index (selected dec rateable request additions ds)) ds
        ≡ length (take additions (sort_by (takes_before dec rateable request) ds))
  unfolding selected
  count_where-selected rateable request additions ds unique =
      sym (count_where-sort_by (takes_before dec rateable request) _ ds)
      ∙ count_where-taken additions (sort_by (takes_before dec rateable request) ds) (λ i.
        rw (count_where-sort_by (takes_before dec rateable request) (has_index i) ds) (unique i))
