-- ===== src/Rating/Total.antt =====
-- The charged amounts of a rated event sum to its total.
use mathlib.Core.Bool.{true≢false}
use token_pilot.Base.{
  All, length-take, or-false, ℕ, ◌+◌, ◌-◌, ◌≤◌, ◌≡◌, refl, ◌∙◌, false, List, [], ◌∷◌, map, arith,
  take, length, count_where, includes, Bool-cases, inl, inr, any, Option, none, some,
}
use token_pilot.Base.Sort.{sort_by, length-sort_by}
use token_pilot.Rating.{
  skipped, Decimals, Line, RateItem, Version, Draft, RatedLine, draft, drafts, selected, charge,
  rated_line, rated, rate_application_aiu, floors, raw_total, raw_or_zero, target_of, takes_before,
  is_missing,
}
use token_pilot.Rating.Laws.{largest_exact, AtLeast, AtMost, Laws}
use token_pilot.Rating.Selection.{Unique, count_where-selected, drafts-Unique}

module _ (dec : Decimals) (rateable : List ℕ) (request : ℕ) where
  -- The amounts that a rating charges, together.
  abbrev pub amount : RatedLine dec → ℕ
  amount line = elim line.charged [ none ↦ 0 | some n ↦ n ]

  abbrev pub items_of : Option (Version dec) → List (RateItem dec)
  items_of none = []
  items_of (some v) = v.items

  unfoldable pub charged_total : List (RatedLine dec) → ℕ
  charged_total [] = 0
  charged_total (line ∷ lines) = amount line + charged_total lines

  charged_total-rated :
      (chosen : List ℕ) (ds : List (Draft dec))
      → charged_total (map (rated_line dec rateable request chosen) ds)
        ≡ floors dec rateable request ds + count_where (λ d. includes d.index chosen) ds
  unfolding charged_total rated_line charge floors
  charged_total-rated chosen [] = omega arith
  charged_total-rated chosen (d ∷ ds) = omega (arith, charged_total-rated chosen ds)

  abbrev Rated : Draft dec → Type 0
  Rated d = d.floor ≡ dec.floor (raw_or_zero dec rateable request d)

  draft-Rated :
      (n : ℕ) (line : Line dec) (o : Option (RateItem dec))
      → is_missing dec rateable request (draft dec rateable request n line o) ≡ false
      → Rated (draft dec rateable request n line o)
  unfolding draft
  draft-Rated n line none h = absurd (true≢false h)
  draft-Rated n line (some rate) h = refl

  drafts-Rated :
      (items : List (RateItem dec)) (n : ℕ) (lines : List (Line dec))
      → any (is_missing dec rateable request) (drafts dec rateable request items n lines) ≡ false
      → All Rated (drafts dec rateable request items n lines)
  unfolding drafts
  drafts-Rated items n [] h = tt
  drafts-Rated items n (line ∷ lines) h = elim (Bool-cases (skipped dec rateable request line)) [
    | inl out ↦ rw out (drafts-Rated items (n + 1) lines (rw out at h))
    | inr kept ↦
        let (here, later) = or-false _ _ (rw kept at h) in
        rw kept (draft-Rated n line _ here, drafts-Rated items (n + 1) lines later)
  ]

  module _ (laws : Laws dec) where
    raw_total-bounds :
        (low high : ℕ) (sum : dec.D) (ds : List (Draft dec))
        → All Rated ds
        → AtLeast dec low sum
        → AtMost dec high sum
        → low ≤ high
        → high + floors dec rateable request ds + length ds ≤ largest_exact
        → AtLeast dec (low + floors dec rateable request ds) (raw_total dec rateable request sum ds)
          × AtMost dec
              (high + floors dec rateable request ds + length ds)
              (raw_total dec rateable request sum ds)
    unfolding raw_total floors
    raw_total-bounds low high sum [] h l m below fits =
        let same_low : low + 0 ≡ low = omega arith in
        let same_high : high + 0 + 0 ≡ high = omega arith in (rw same_low l, rw same_high m)
    raw_total-bounds low high sum (d ∷ ds) h l m below fits =
        let raw = raw_or_zero dec rateable request d in
        let here = h.0 in
        let above : AtLeast dec d.floor raw = rw here (laws.floor_low raw) in
        let under : AtMost dec (d.floor + 1) raw = rw here (laws.floor_high raw) in
        let l' = laws.add_low low d.floor sum raw l above (omega (arith, below, fits)) in
        let m' = laws.add_high high (d.floor + 1) sum raw m under (omega (arith, fits)) in
        let (end_low, end_high) =
          raw_total-bounds (low + d.floor) (high + (d.floor + 1)) (dec.add sum raw) ds h.1 l' m'
            (omega (arith, below)) (omega (arith, fits)) in
        let same_low : low + d.floor + floors dec rateable request ds
            ≡ low + (d.floor + floors dec rateable request ds) =
          omega arith in
        let same_high : high + (d.floor + 1) + floors dec rateable request ds + length ds
            ≡ high + (d.floor + floors dec rateable request ds) + length (d ∷ ds) =
          omega arith in
        (rw same_low at end_low, rw same_high at end_high)

    target-bounds :
        (ds : List (Draft dec))
        → All Rated ds
        → floors dec rateable request ds + length ds ≤ largest_exact
        → (floors dec rateable request ds ≤ target_of dec rateable request ds)
          × (target_of dec rateable request ds ≤ floors dec rateable request ds + length ds)
    target-bounds ds h fits =
        let (low, high) =
          raw_total-bounds 0 0 dec.zero ds h laws.zero_low laws.zero_high (omega arith)
            (omega (arith, fits)) in
        let above = laws.round_low _ _ low in
        let below = laws.round_high _ _ high in (omega (arith, above), omega (arith, below))

    rated-total :
        (version : ℕ) (ds : List (Draft dec))
        → All Rated ds
        → Unique dec ds
        → floors dec rateable request ds + length ds ≤ largest_exact
        → charged_total (rated dec rateable request version ds).lines
          ≡ target_of dec rateable request ds
    unfolding rated
    rated-total version ds h unique fits =
        let target = target_of dec rateable request ds in
        let additions = target - floors dec rateable request ds in
        let (low, high) = target-bounds ds h fits in
        let counted = count_where-selected dec rateable request additions ds unique in
        let enough : length (take additions (sort_by (takes_before dec rateable request) ds))
            ≡ additions =
          length-take additions _
            (rw (length-sort_by (takes_before dec rateable request) ds) (omega (arith, high))) in
        charged_total-rated (selected dec rateable request additions ds) ds
        ∙ omega (arith, counted, enough, low)

    -- The amounts charged for the lines of an event sum to the event's total, exactly: the sum of the
    -- raw amounts, each addition rounded to 20 significant digits, rounded half up. The whole parts of
    -- the raw amounts and the number of the lines add up to at most 10 ^ 20.
    pub rate_application_aiu-total :
        (version : Option (Version dec)) (lines : List (Line dec)) (total : ℕ)
        → let ds = drafts dec rateable request (items_of version) 0 lines in
          floors dec rateable request ds + length ds ≤ largest_exact
          → (rate_application_aiu dec rateable request version lines).total ≡ some total
          → charged_total (rate_application_aiu dec rateable request version lines).lines ≡ total
    unfolding rate_application_aiu rated
    rate_application_aiu-total none lines total fits h = cc
    rate_application_aiu-total (some v) lines total fits h =
        let ds = drafts dec rateable request v.items 0 lines in
        elim (Bool-cases (any (is_missing dec rateable request) ds)) [
          | inl missing ↦ let h' : none ≡ some total = rw missing at h in cc
          | inr complete ↦
              let h' : some (target_of dec rateable request ds) ≡ some total = rw complete at h in
              let same : target_of dec rateable request ds ≡ total = cc in
              rw complete (
                rated-total v.id ds (drafts-Rated v.items 0 lines complete)
                  (drafts-Unique dec rateable request v.items 0 lines) fits
                ∙ same)
        ]
