-- ===== src/Reconciliation/Clean.antt =====
-- When a reconciliation reports nothing.
use mathlib.Core.Bool.{true≢false}
use token_pilot.Base.{
  ℕ, ◌≤◌, ◌≡◌, refl, sym, ◌∙◌, Bool, true, false, List, [], ◌∷◌, not, ◌==◌, ltb, arith, keep,
  same_option_iff, inl, inr, Bool-cases, or-false, ==-self,
}
use token_pilot.Reconciliation.{
  Costs, Row, Diff, Metrics, Tolerance, UsageKey, event_count, input_tokens, cached_input_tokens,
  output_tokens, unpriced_count, unrated_count, usage_keys, usage_deltas, is_nil, when,
  cost_differs, distance, paired_diffs, has_key, sum_duplicates, sides, key_diffs, duplicate_count,
}

module _ (costs : Costs) where
  -- Two rows say the same, up to the tolerances, and nothing is left to do for them.
  pub record Agrees (tolerance : Tolerance costs) (pg ch : Row costs) : Type 0 where
    pub hashes : (pg.payload_hash_conflict ≡ false) × (ch.payload_hash_conflict ≡ false)
    pub models : pg.model_identity ≡ ch.model_identity
    pub costed : pg.cost_version ≡ ch.cost_version
    pub rated : pg.aiu_version ≡ ch.aiu_version
    pub usage : (k : UsageKey) → pg.metrics.usage k ≡ ch.metrics.usage k
    pub cost : cost_differs costs tolerance pg ch ≡ false
    pub aiu : distance costs pg.metrics.aiu_micros ch.metrics.aiu_micros ≤ tolerance.aiu_micros
    pub on_time : pg.late_events ≡ 0
    pub projected : pg.unprojected_adjustments ≡ 0

  pub when-nil :
      (b : Bool) (d : Diff costs) (rest : List (Diff costs))
      → when costs b d rest ≡ []
      → (b ≡ false) × (rest ≡ [])
  unfolding when
  when-nil true d rest h = let h' : d ∷ rest ≡ [] = h in cc
  when-nil false d rest h = (refl, h)

  deltas-nil :
      (k : UsageKey) (ks : List UsageKey) (pg ch : Metrics costs)
      → is_nil costs (usage_deltas costs (k ∷ ks) pg ch) ≡ true
      → (pg.usage k ≡ ch.usage k) × (is_nil costs (usage_deltas costs ks pg ch) ≡ true)
  unfolding usage_deltas
  deltas-nil k ks pg ch h = elim (Bool-cases (pg.usage k == ch.usage k)) [
    | inl same ↦ (ground arith, rw same at h)
    | inr other ↦ let h' : false ≡ true = rw other at h in absurd (true≢false (sym h'))
  ]

  usage-nil :
      (pg ch : Metrics costs)
      → is_nil costs (usage_deltas costs usage_keys pg ch) ≡ true
      → (k : UsageKey) → pg.usage k ≡ ch.usage k
  usage-nil pg ch h k =
      let (e1, h1) = deltas-nil event_count _ pg ch h in
      let (e2, h2) = deltas-nil input_tokens _ pg ch h1 in
      let (e3, h3) = deltas-nil cached_input_tokens _ pg ch h2 in
      let (e4, h4) = deltas-nil output_tokens _ pg ch h3 in
      let (e5, h5) = deltas-nil unpriced_count _ pg ch h4 in
      let (e6, h6) = deltas-nil unrated_count _ pg ch h5 in pick e1 e2 e3 e4 e5 e6 k
    where
      pick :
          pg.usage event_count ≡ ch.usage event_count
          → pg.usage input_tokens ≡ ch.usage input_tokens
          → pg.usage cached_input_tokens ≡ ch.usage cached_input_tokens
          → pg.usage output_tokens ≡ ch.usage output_tokens
          → pg.usage unpriced_count ≡ ch.usage unpriced_count
          → pg.usage unrated_count ≡ ch.usage unrated_count
          → (k : UsageKey) → pg.usage k ≡ ch.usage k
      pick e1 e2 e3 e4 e5 e6 event_count = e1
      pick e1 e2 e3 e4 e5 e6 input_tokens = e2
      pick e1 e2 e3 e4 e5 e6 cached_input_tokens = e3
      pick e1 e2 e3 e4 e5 e6 output_tokens = e4
      pick e1 e2 e3 e4 e5 e6 unpriced_count = e5
      pick e1 e2 e3 e4 e5 e6 unrated_count = e6

  not-true : (b : Bool) → not b ≡ false → b ≡ true
  not-true true h = refl
  not-true false h = absurd (true≢false h)

  module _ (tolerance : Tolerance costs) where
    paired-nil :
        (pg ch : Row costs) → paired_diffs costs tolerance pg ch ≡ [] → Agrees tolerance pg ch
    unfolding paired_diffs
    paired-nil pg ch h =
        let (b1, h1) = when-nil _ _ _ h in
        let (b2, h2) = when-nil _ _ _ h1 in
        let (b3, h3) = when-nil _ _ _ h2 in
        let (b4, h4) = when-nil _ _ _ h3 in
        let (b5, h5) = when-nil _ _ _ h4 in
        let (b6, h6) = when-nil _ _ _ h5 in
        let (b7, h7) = when-nil _ _ _ h6 in
        let (b8, h8) = when-nil _ _ _ h7 in
        let (b9, h9) = when-nil _ _ _ h8 in
        record {
          hashes = or-false _ _ b1;
          models = (same_option_iff pg.model_identity ch.model_identity).0 (not-true _ b2);
          costed = (same_option_iff pg.cost_version ch.cost_version).0 (not-true _ b3);
          rated = (same_option_iff pg.aiu_version ch.aiu_version).0 (not-true _ b4);
          usage = usage-nil pg.metrics ch.metrics (not-true _ b5);
          cost = b6;
          aiu = ground arith;
          on_time = ground arith;
          projected = ground arith;
        }

    usage_deltas-same :
        (ks : List UsageKey) (pg ch : Metrics costs)
        → ((k : UsageKey) → pg.usage k ≡ ch.usage k)
        → usage_deltas costs ks pg ch ≡ []
    unfolding usage_deltas
    usage_deltas-same [] pg ch same = refl
    usage_deltas-same (k ∷ ks) pg ch same =
        rw (same k, ==-self (ch.usage k)) (usage_deltas-same ks pg ch same)

    agree-paired :
        (pg ch : Row costs) → Agrees tolerance pg ch → paired_diffs costs tolerance pg ch ≡ []
    unfolding paired_diffs when
    agree-paired pg ch a =
        rw
          (
            usage_deltas-same usage_keys pg.metrics ch.metrics a.usage,
            a.hashes.0,
            a.hashes.1,
            (same_option_iff pg.model_identity ch.model_identity).1 a.models,
            (same_option_iff pg.cost_version ch.cost_version).1 a.costed,
            (same_option_iff pg.aiu_version ch.aiu_version).1 a.rated,
            a.cost,
            within,
            late,
            open_adjustments,
          )
          refl
      where
        within :
            ltb tolerance.aiu_micros (distance costs pg.metrics.aiu_micros ch.metrics.aiu_micros)
            ≡ false
        within = let h = a.aiu in ground arith

        late : ltb 0 pg.late_events ≡ false
        late = let h = a.on_time in ground arith

        open_adjustments : ltb 0 pg.unprojected_adjustments ≡ false
        open_adjustments = let h = a.projected in ground arith

    -- A key has one row on each side, counted once each, and the two rows agree.
    pub record KeyClean (pg ch : List (Row costs)) (k : ℕ) : Type 0 where
      pub official : Row costs
      pub mirrored : Row costs
      pub one_official : keep (has_key costs tolerance k) pg ≡ official ∷ []
      pub one_mirrored : keep (has_key costs tolerance k) ch ≡ mirrored ∷ []
      pub counted_once : (official.duplicates ≡ 0) × (mirrored.duplicates ≡ 0)
      pub agree : Agrees tolerance official mirrored

    sides-nil :
        (k : ℕ) (pg ch : List (Row costs))
        → key_diffs costs tolerance k pg ch ≡ []
        → (p : Row costs) × (c : Row costs) × (pg ≡ p ∷ [])
          × (ch ≡ c ∷ [])
          × (p.duplicates ≡ 0)
          × (c.duplicates ≡ 0)
          × Agrees tolerance p c
    unfolding key_diffs sides sum_duplicates
    sides-nil k [] ch h = let (b, h') = when-nil _ _ _ h in cc
    sides-nil k (p ∷ ps) [] h = let (b, h') = when-nil _ _ _ h in cc
    sides-nil k (p ∷ []) (c ∷ []) h =
        let (b, h') = when-nil _ _ _ h in
        (p, c, refl, refl, ground arith, ground arith, paired-nil p c h')
    sides-nil k (p ∷ []) (c ∷ d ∷ cs) h = let (b, h') = when-nil _ _ _ h in absurd (ground arith)
    sides-nil k (p ∷ o ∷ ps) (c ∷ cs) h = let (b, h') = when-nil _ _ _ h in absurd (ground arith)

    pub key_diffs-KeyClean :
        (pg ch : List (Row costs)) (k : ℕ)
        → key_diffs costs tolerance k
            (keep (has_key costs tolerance k) pg)
            (keep (has_key costs tolerance k) ch)
          ≡ []
        → KeyClean pg ch k
    key_diffs-KeyClean pg ch k h =
        let (p, c, one_p, one_c, dup_p, dup_c, agree) = sides-nil k _ _ h in
        record {
          official = p;
          mirrored = c;
          one_official = one_p;
          one_mirrored = one_c;
          counted_once = (dup_p, dup_c);
          agree = agree;
        }

    one_each :
        (k : ℕ) (p c : Row costs)
        → p.duplicates ≡ 0
        → c.duplicates ≡ 0
        → key_diffs costs tolerance k (p ∷ []) (c ∷ []) ≡ paired_diffs costs tolerance p c
    unfolding key_diffs sides sum_duplicates when
    one_each k p c dup_p dup_c =
        let once : ltb 0 (duplicate_count costs tolerance (p ∷ []) (c ∷ [])) ≡ false =
          ground arith in
        rw once refl

    pub KeyClean-key_diffs :
        (pg ch : List (Row costs)) (k : ℕ)
        → KeyClean pg ch k
        → key_diffs costs tolerance k
            (keep (has_key costs tolerance k) pg)
            (keep (has_key costs tolerance k) ch)
          ≡ []
    KeyClean-key_diffs pg ch k clean =
        rw (clean.one_official, clean.one_mirrored)
          (one_each k clean.official clean.mirrored clean.counted_once.0 clean.counted_once.1
            ∙ agree-paired clean.official clean.mirrored clean.agree)
