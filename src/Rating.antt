-- ===== src/Rating.antt =====
-- Rating the usage of an event in AIU: `rateApplicationAiu` of
-- apps/worker/src/application-usage/rating.ts. The decimal arithmetic of decimal.js is a parameter;
-- a usage type, a unit key and an identifier are numbers, and the empty unit key is 0.
pub mod Laws
pub mod Selection
pub mod Total
mod Tests
use token_pilot.Base.{
  ℕ, ◌+◌, ◌-◌, ltb, leb, Bool, true, false, Option, none, some, List, [], ◌∷◌, map, ◌&&◌, ◌||◌, not,
  ◌==◌, if◌then◌else◌, find, includes, take, any,
}
use token_pilot.Base.Sort.{sort_by}

-- The operations of decimal.js that the code calls, on the numbers that are not negative. The
-- quantities that it reads from text are numbers here.
pub record Decimals : Type 1 where
  pub D : Type 0
  pub zero : D
  pub is_zero : D → Bool
  pub add : D → D → D
  pub mul : D → D → D
  pub div : D → D → D
  pub of_micros : ℕ → D
  -- `BigInt(x.floor().toFixed(0))`, and the same after `toDecimalPlaces(0, ROUND_HALF_UP)`.
  pub floor : D → ℕ
  pub round : D → ℕ
  -- `x.minus(x.floor())`, and `left.comparedTo(right) > 0`.
  pub fraction : D → D
  pub greater : D → D → Bool

module _ (dec : Decimals) where
  pub record Line : Type 0 where
    pub usage_type : ℕ
    pub unit_key : Option ℕ
    pub quantity : dec.D

  pub record RateItem : Type 0 where
    pub id : ℕ
    pub usage_type : ℕ
    pub unit_key : ℕ
    pub unit_size : dec.D
    pub micros_per_unit : ℕ

  pub record Version : Type 0 where
    pub id : ℕ
    pub items : List RateItem

  pub record Draft : Type 0 where
    pub index : ℕ
    pub line : Line
    pub unit_key : ℕ
    pub rate : Option RateItem
    pub raw : Option dec.D
    pub floor : ℕ
    pub fraction : dec.D

  pub record RatedLine : Type 0 where
    pub usage_type : ℕ
    pub unit_key : ℕ
    pub quantity : dec.D
    pub rate_item : Option ℕ
    pub raw : Option dec.D
    pub charged : Option ℕ

  pub record Rating : Type 0 where
    pub official : Bool
    pub version : Option ℕ
    pub total : Option ℕ
    pub lines : List RatedLine

  -- `rateableUsageTypes` and "request".
  module _ (rateable : List ℕ) (request : ℕ) where
    abbrev pub relevant : Line → Bool
    relevant line = not (dec.is_zero line.quantity) && includes line.usage_type rateable

    abbrev pub skipped : Line → Bool
    skipped line = not (relevant line) || line.usage_type == request

    abbrev pub key_of : Option ℕ → ℕ
    key_of none = 0
    key_of (some k) = k

    abbrev pub rates_line : ℕ → ℕ → RateItem → Bool
    rates_line type key item = item.usage_type == type && item.unit_key == key

    -- A `Map` keeps the last item of a key.
    unfoldable pub rate_for : List RateItem → ℕ → ℕ → Option RateItem
    rate_for [] type key = none
    rate_for (item ∷ items) type key = elim (rate_for items type key) [
      | some later ↦ some later
      | none ↦ if rates_line type key item then some item else none
    ]

    abbrev pub raw_of : Line → RateItem → dec.D
    raw_of line rate =
        dec.mul (dec.div line.quantity rate.unit_size) (dec.of_micros rate.micros_per_unit)

    unfoldable pub draft : ℕ → Line → Option RateItem → Draft
    draft index line none = record {
      index = index;
      line = line;
      unit_key = key_of line.unit_key;
      rate = none;
      raw = none;
      floor = 0;
      fraction = dec.zero;
    }
    draft index line (some rate) = record {
      index = index;
      line = line;
      unit_key = key_of line.unit_key;
      rate = some rate;
      raw = some (raw_of line rate);
      floor = dec.floor (raw_of line rate);
      fraction = dec.fraction (raw_of line rate);
    }

    -- The loop over `usage.entries()`.
    unfoldable pub drafts : List RateItem → ℕ → List Line → List Draft
    drafts items index [] = []
    drafts items index (line ∷ lines) =
        let rest = drafts items (index + 1) lines in
        if skipped line
        then rest
        else draft index line (rate_for items line.usage_type (key_of line.unit_key)) ∷ rest

    abbrev pub is_missing : Draft → Bool
    is_missing d = elim d.rate [ none ↦ true | some _ ↦ false ]

    abbrev pub raw_or_zero : Draft → dec.D
    raw_or_zero d = elim d.raw [ none ↦ dec.zero | some raw ↦ raw ]

    -- `drafts.reduce((sum, draft) => sum.add(draft.raw ?? 0), 0)`
    unfoldable pub raw_total : dec.D → List Draft → dec.D
    raw_total sum [] = sum
    raw_total sum (d ∷ ds) = raw_total (dec.add sum (raw_or_zero d)) ds

    unfoldable pub floors : List Draft → ℕ
    floors [] = 0
    floors (d ∷ ds) = d.floor + floors ds

    abbrev pub takes_before : Draft → Draft → Bool
    takes_before a b =
        dec.greater a.fraction b.fraction
        || (not (dec.greater b.fraction a.fraction) && ltb a.index b.index)

    -- The indices of the lines that get one more; `target` below `floors` gives none.
    unfoldable pub selected : ℕ → List Draft → List ℕ
    selected additions ds = map (λ d. d.index) (take additions (sort_by takes_before ds))

    unfoldable pub charge : List ℕ → Draft → ℕ
    charge chosen d = d.floor + (if includes d.index chosen then 1 else 0)

    unfoldable pub unrated_line : Draft → RatedLine
    unrated_line d = record {
      usage_type = d.line.usage_type;
      unit_key = d.unit_key;
      quantity = d.line.quantity;
      rate_item = elim d.rate [ none ↦ none | some rate ↦ some rate.id ];
      raw = d.raw;
      charged = none;
    }

    unfoldable pub rated_line : List ℕ → Draft → RatedLine
    rated_line chosen d = record (unrated_line d) { charged = some (charge chosen d) }

    abbrev pub target_of : List Draft → ℕ
    target_of ds = dec.round (raw_total dec.zero ds)

    unfoldable pub rated : ℕ → List Draft → Rating
    rated version ds = record {
      official = true;
      version = some version;
      total = some (target_of ds);
      lines = map (rated_line (selected (target_of ds - floors ds) ds)) ds;
    }

    abbrev pub unrated : Option ℕ → List Draft → Rating
    unrated version ds = record {
      official = false;
      version = version;
      total = none;
      lines = map unrated_line ds;
    }

    unfoldable pub rate_application_aiu : Option Version → List Line → Rating
    rate_application_aiu none lines = unrated none (drafts [] 0 lines)
    rate_application_aiu (some v) lines =
        let ds = drafts v.items 0 lines in
        if any is_missing ds then unrated (some v.id) ds else rated v.id ds
