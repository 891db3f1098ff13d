-- ===== src/Routing/Winner.antt =====
-- Which rule wins: the only one that matches at the highest priority.
use token_pilot.Base.{
  ℕ, ◌≤◌, ◌≡◌, refl, sym, ◌∙◌, Bool, true, false, Option, none, some, List, [], ◌∷◌, ◌&&◌, ◌==◌,
  ltb, arith, keep, length, count_where, ◌⊎◌, inl, inr, Bool-cases, All, All-map, All-keep,
  All-of_keep, All-keep-none, All-kept, count_where-keep, length-keep, ==-self,
}
use token_pilot.Routing.Matching.{Rule, Context, Local, rule_matches}
use token_pilot.Routing.{
  Floats, Plan, Selection, Outcome, failed, route_conflict, selection, highest, winners,
  resolve_winner, resolve_matched, resolve_runtime_route,
}

module _ (fl : Floats) (bytes : ℕ → ℕ → List ℕ) where
  highest-bound : (rs : List Rule) → All (λ r. r.priority ≤ highest fl bytes rs) rs
  unfolding highest
  highest-bound [] = tt
  highest-bound (r ∷ rs) = (ground arith, All-map (λ x h. ground (arith, h)) rs (highest-bound rs))

  highest-step :
      (r : Rule) (rs : List Rule)
      → (highest fl bytes (r ∷ rs) ≡ r.priority) ⊎ (highest fl bytes (r ∷ rs) ≡ highest fl bytes rs)
  unfolding highest
  highest-step r rs = elim (Bool-cases (ltb r.priority (highest fl bytes rs))) [
    | inl above ↦ inr (rw above refl)
    | inr first ↦ inl (rw first refl)
  ]

  highest-single : (r : Rule) → highest fl bytes (r ∷ []) ≡ r.priority
  unfolding highest
  highest-single r = ground arith

  highest-reached :
      (r : Rule) (rs : List Rule) (p : ℕ)
      → highest fl bytes (r ∷ rs) ≡ p
      → 1 ≤ count_where (λ x. x.priority == p) (r ∷ rs)
  highest-reached r [] p is =
      let first : r.priority ≡ p = sym (highest-single r) ∙ is in
      rw (← first, ==-self r.priority) (omega arith)
  highest-reached r (s ∷ ss) p is = elim (highest-step r (s ∷ ss)) [
    | inl here ↦
        let first : r.priority ≡ p = sym here ∙ is in rw (← first, ==-self r.priority) (omega arith)
    | inr above ↦ let later = highest-reached s ss p (sym above ∙ is) in omega (arith, later)
  ]

  -- How a request is decided among the rules that match it.
  abbrev pub Decided : Plan → Local → ℕ → Context → Outcome Selection → Type 0
  Decided plan local now c o =
      (All (λ r. rule_matches r local now c ≡ false) plan.rules
        × (o ≡ selection fl bytes plan plan.default none c))
      ⊎ ((w : Rule) × (rule_matches w local now c ≡ true)
          × All (λ r. rule_matches r local now c ≡ true → r.priority ≤ w.priority) plan.rules
          × (count_where (λ r. rule_matches r local now c && r.priority == w.priority) plan.rules
              ≡ 1)
          × (o ≡ selection fl bytes plan w.route (some w.id) c))
      ⊎ ((p : ℕ) × All (λ r. rule_matches r local now c ≡ true → r.priority ≤ p) plan.rules
          × (2 ≤ count_where (λ r. rule_matches r local now c && r.priority == p) plan.rules)
          × (o ≡ failed route_conflict))

  module _ (plan : Plan) (local : Local) (now : ℕ) (c : Context) where
    abbrev applies : Rule → Bool
    applies r = rule_matches r local now c

    winners-count :
        (p : ℕ) (rs : List Rule)
        → length (keep (λ r. r.priority == p) (keep applies rs))
          ≡ count_where (λ r. applies r && r.priority == p) rs
    winners-count p rs =
        length-keep (λ r. r.priority == p) (keep applies rs)
        ∙ count_where-keep (λ r. r.priority == p) applies rs

    below :
        (r : Rule) (rs : List Rule)
        → keep applies plan.rules ≡ r ∷ rs
        → All (λ x. applies x ≡ true → x.priority ≤ highest fl bytes (r ∷ rs)) plan.rules
    below r rs matched =
        All-of_keep (λ x. x.priority ≤ highest fl bytes (r ∷ rs)) applies plan.rules
          (rw matched (highest-bound (r ∷ rs)))

    counted :
        (r : Rule) (rs ws : List Rule)
        → keep applies plan.rules ≡ r ∷ rs
        → winners fl bytes (r ∷ rs) ≡ ws
        → count_where (λ x. applies x && x.priority == highest fl bytes (r ∷ rs)) plan.rules
          ≡ length ws
    counted r rs ws matched at =
        sym (winners-count (highest fl bytes (r ∷ rs)) plan.rules) ∙ rw (matched, at) refl

    resolve_winner-cases :
        (r : Rule) (rs : List Rule) (ws : List Rule)
        → keep applies plan.rules ≡ r ∷ rs
        → winners fl bytes (r ∷ rs) ≡ ws
        → Decided plan local now c (resolve_winner fl bytes plan ws c)
    unfolding resolve_winner
    resolve_winner-cases r rs [] matched at =
        let reached = highest-reached r rs _ refl in
        let counted = length-keep (λ x. x.priority == highest fl bytes (r ∷ rs)) (r ∷ rs) in
        let nothing : length (winners fl bytes (r ∷ rs)) ≡ 0 = rw at refl in
        absurd (omega (arith, reached, counted, nothing))
    resolve_winner-cases r rs (w ∷ []) matched at =
        let (chosen, _) =
          rw at at (All-keep (λ x. x.priority == highest fl bytes (r ∷ rs)) (r ∷ rs)) in
        let (hit, _) = rw at at (
          All-kept (λ x. applies x ≡ true) (λ x. x.priority == highest fl bytes (r ∷ rs)) (r ∷ rs)
            (rw matched at (All-keep applies plan.rules))) in
        let same : w.priority ≡ highest fl bytes (r ∷ rs) = ground arith in
        inr (inl (w, hit, rw same (below r rs matched), rw same (counted r rs _ matched at), refl))
    resolve_winner-cases r rs (a ∷ b ∷ ws) matched at = inr (
        inr (
          highest fl bytes (r ∷ rs),
          below r rs matched,
          let n = counted r rs _ matched at in omega (arith, n),
          refl,
        ))

    resolve_matched-cases :
        (rs : List Rule)
        → keep applies plan.rules ≡ rs
        → Decided plan local now c (resolve_matched fl bytes plan rs c)
    unfolding resolve_matched
    resolve_matched-cases [] at = inl (All-keep-none applies plan.rules at, refl)
    resolve_matched-cases (r ∷ rs) at = resolve_winner-cases r rs _ at refl

  -- A request for a published virtual model goes to the default route if no rule matches it, to the
  -- route of the rule that alone has the highest priority among the rules that match, and fails with
  -- a conflict exactly in the remaining case, where two or more rules share that priority.
  pub resolve_runtime_route-Decided :
      (plans : ℕ → Option Plan) (name : ℕ) (plan : Plan) (local : Local) (now : ℕ) (c : Context)
      → plans name ≡ some plan
      → Decided plan local now c (resolve_runtime_route fl bytes plans name local now c)
  unfolding resolve_runtime_route
  resolve_runtime_route-Decided plans name plan local now c published =
      rw (published, resolve_runtime_route)
        (resolve_matched-cases plan local now c (keep (λ r. rule_matches r local now c) plan.rules)
          refl)
