-- ===== src/Quota/Policy/Precedence.antt =====
-- Which of the rules that a user falls under applies.
use token_pilot.Base.{
  ℕ, ◌≡◌, refl, Bool, true, false, Option, none, some, List, arith, keep, find, find-test, All,
  All-of_keep, All-keep, All-kept, ◌⊎◌, inl, inr,
}
use mathlib.Core.List.{Mem}
use token_pilot.Base.Best.{find-sort_by, find-sort_by-none, find-All, All-Mem}
use token_pilot.Base.Sort.{All-sort_by}
use token_pilot.Quota.Policy.{
  Policy, is_candidate, ranks_before, candidates, is_direct, is_group_rule, is_default,
  resolve_policy,
}

ranks_before-asymmetric : (a b : Policy) → ranks_before a b ≡ true → ranks_before b a ≡ false
ranks_before-asymmetric a b h = ground arith

ranks_before-transitive :
    (a b c : Policy)
    → ranks_before c b ≡ false
    → ranks_before b a ≡ false
    → ranks_before c a ≡ false
ranks_before-transitive a b c h1 h2 = ground arith

module _ (app id : ℕ) (policies : List Policy) where
  -- No enabled rule for the user satisfies the test.
  abbrev pub None : (Policy → Bool) → Type 0
  None test = All (λ o. is_candidate app id o ≡ true → test o ≡ false) policies

  -- One of the enabled rules for the user satisfies the test, and no other that does ranks before
  -- it.
  abbrev pub Best : (Policy → Bool) → Policy → Type 0
  Best test p =
      Mem p policies
      × (is_candidate app id p ≡ true)
      × (test p ≡ true)
      × All (λ o. is_candidate app id o ≡ true → test o ≡ true → ranks_before o p ≡ false) policies

  -- A rule for the user itself goes before one for a group of the user, and that before the
  -- default of the application.
  abbrev pub Chosen : Option Policy → Type 0
  Chosen none = None is_direct × None (is_group_rule id) × None is_default
  Chosen (some p) =
      Best is_direct p
      ⊎ (None is_direct × Best (is_group_rule id) p)
      ⊎ (None is_direct × None (is_group_rule id) × Best is_default p)

  best :
      (test : Policy → Bool) (p : Policy)
      → find test (candidates app id policies) ≡ some p
      → Best test p
  unfolding candidates
  best test p e = (
    find-All (λ o. Mem o policies) test (candidates app id policies) p e
        ((All-sort_by ranks_before (λ o. Mem o policies) (keep (is_candidate app id) policies)).1
          (All-kept (λ o. Mem o policies) (is_candidate app id) policies (All-Mem policies))),
    find-All (λ o. is_candidate app id o ≡ true) test (candidates app id policies) p e
        ((All-sort_by ranks_before (λ o. is_candidate app id o ≡ true)
            (keep (is_candidate app id) policies)).1
          (All-keep (is_candidate app id) policies)),
    find-test test (candidates app id policies) p e,
    All-of_keep (λ o. test o ≡ true → ranks_before o p ≡ false) (is_candidate app id) policies
        (find-sort_by ranks_before ranks_before-asymmetric ranks_before-transitive test
          (keep (is_candidate app id) policies) p e),
  )

  none_such : (test : Policy → Bool) → find test (candidates app id policies) ≡ none → None test
  unfolding candidates
  none_such test e =
      All-of_keep (λ o. test o ≡ false) (is_candidate app id) policies
        (find-sort_by-none ranks_before test (keep (is_candidate app id) policies) e)

  -- The rule that applies to a user is the best ranked of the enabled rules for the user itself; if
  -- there is none, of those for a group that has the user as a member by the evaluation of its
  -- current definition; and if there is none either, of the application's defaults. No rule applies
  -- only where there is none of the three kinds.
  pub resolve_policy-Chosen : Chosen (resolve_policy app id policies)
  unfolding resolve_policy
  resolve_policy-Chosen =
      go (find is_direct rows) (find (is_group_rule id) rows) (find is_default rows) refl refl refl
    where
      rows : List Policy
      rows = candidates app id policies

      go :
          (d g a : Option Policy)
          → find is_direct (candidates app id policies) ≡ d
          → find (is_group_rule id) (candidates app id policies) ≡ g
          → find is_default (candidates app id policies) ≡ a
          → Chosen (elim d [
            | some direct ↦ some direct
            | none ↦ elim g [ some rule ↦ some rule | none ↦ a ]
          ])
      go (some p) g a ed eg ea = inl (best is_direct p ed)
      go none (some p) a ed eg ea = inr (inl (none_such is_direct ed, best (is_group_rule id) p eg))
      go none none (some p) ed eg ea =
          inr (inr (none_such is_direct ed, none_such (is_group_rule id) eg, best is_default p ea))
      go none none none ed eg ea =
          (none_such is_direct ed, none_such (is_group_rule id) eg, none_such is_default ea)
