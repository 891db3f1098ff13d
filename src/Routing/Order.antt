-- ===== src/Routing/Order.antt =====
-- The order of a route's targets: a permutation, whatever the weights, the hash and the arithmetic.
use token_pilot.Base.{
  ℕ, ◌≤◌, ◌≡◌, refl, ◌∙◌, Bool, false, Option, none, some, List, [], ◌∷◌, ◌&&◌, ◌==◌, not, arith,
  keep, count_where, inl, inr, Bool-cases, All, All-map, count_where-keep, count_where-same,
  ==-self,
}
use token_pilot.Routing.Matching.{Target, Route}
use token_pilot.Routing.{
  Floats, pick, weighted_choice, weighted_order, ordered_targets, hash_text, other_model,
}

abbrev pub has_model : ℕ → Target → Bool
has_model i t = t.model_id == i

-- No model is listed twice.
abbrev pub Distinct : List Target → Type 0
Distinct ts = (i : ℕ) → count_where (has_model i) ts ≤ 1

-- Every model stands as often in the one list as in the other.
abbrev pub SameModels : List Target → List Target → Type 0
SameModels ts us = (i : ℕ) → count_where (has_model i) ts ≡ count_where (has_model i) us

counted-once : (ts : List Target) → All (λ t. 1 ≤ count_where (has_model t.model_id) ts) ts
counted-once [] = tt
counted-once (t ∷ ts) =
    (rw (==-self t.model_id) (omega arith), All-map (λ u h. omega (arith, h)) ts (counted-once ts))

count_where-false : (ts : List Target) → count_where (λ _. false) ts ≡ 0
count_where-false [] = refl
count_where-false (t ∷ ts) = omega (arith, count_where-false ts)

-- A target of the list, put in front of those of the other models.
front-SameModels :
    (c : Target) (ts : List Target)
    → Distinct ts
    → 1 ≤ count_where (has_model c.model_id) ts
    → SameModels (c ∷ keep (other_model c) ts) ts
front-SameModels c ts distinct once i =
    let others = count_where-keep (has_model i) (other_model c) ts in
    elim (Bool-cases (c.model_id == i)) [
      | inl same ↦
          let at : c.model_id ≡ i = ground arith in
          let none_left =
            count_where-same (λ x. other_model c x && has_model i x) (λ _. false) ts
              (λ x. ground arith)
            ∙ count_where-false ts in
          let at_most = distinct i in
          let at_least : 1 ≤ count_where (has_model i) ts = rw at at once in
          rw same (omega (arith, others, none_left, at_most, at_least))
      | inr different ↦
          let same =
            count_where-same (λ x. other_model c x && has_model i x) (has_model i) ts
              (λ x. ground arith) in
          rw different (omega (arith, others, same))
    ]

module _ (fl : Floats) where
  pick-All :
      (P : Target → Type 0) (point cumulative : fl.F) (t : Target) (ts : List Target)
      → P t
      → All P ts
      → P (pick fl point cumulative t ts)
  unfolding pick
  pick-All P point cumulative t [] here h = here
  pick-All P point cumulative t (u ∷ us) here h =
      elim (Bool-cases (fl.less point (fl.add cumulative (fl.weight u.weight)))) [
        | inl hit ↦ rw hit (h.0)
        | inr miss ↦
            rw miss (pick-All P point (fl.add cumulative (fl.weight u.weight)) t us here h.1)
      ]

  weighted_order-SameModels :
      (hash : ℕ) (ts : List Target) → Distinct ts → SameModels (weighted_order fl hash ts) ts
  unfolding weighted_order
  weighted_order-SameModels hash [] distinct i = refl
  weighted_order-SameModels hash (t ∷ ts) distinct i =
      let all = counted-once (t ∷ ts) in
      front-SameModels (weighted_choice fl hash t ts) (t ∷ ts) distinct
        (pick-All (λ u. 1 ≤ count_where (has_model u.model_id) (t ∷ ts)) _ _ t (t ∷ ts) all.0 all) i

  -- The order in which the targets of a route are tried has every target of the route once, whatever
  -- the weights, the key and the rounding of the arithmetic: none is dropped and none is tried twice.
  pub ordered_targets-SameModels :
      (bytes : ℕ → ℕ → List ℕ) (route : Route) (key : Option ℕ)
      → Distinct route.targets
      → SameModels (ordered_targets fl bytes route key) route.targets
  unfolding ordered_targets
  ordered_targets-SameModels bytes route none distinct i = refl
  ordered_targets-SameModels bytes route (some key) distinct i =
      elim (Bool-cases (not route.weighted)) [
        | inl ordered ↦ rw ordered refl
        | inr weighted ↦ rw weighted (
            weighted_order-SameModels (hash_text (bytes route.route_tag key)) route.targets distinct
              i)
      ]
