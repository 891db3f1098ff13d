-- ===== src/Token/Split.antt =====
-- The split of a text at its dots.
use token_pilot.Base.{
  ℕ, ◌≡◌, refl, true, false, List, [], ◌∷◌, ◌++◌, includes, ◌==◌, arith, same_list,
}
use token_pilot.Token.{dot, split}

pub split-dot : (a b : List ℕ) → includes dot a ≡ false → split (a ++ (dot ∷ b)) ≡ a ∷ split b
unfolding split
split-dot [] b h = refl
split-dot (unit ∷ units) b h =
    let other : (unit == 46) ≡ false = ground arith in
    let rest : includes dot units ≡ false = ground arith in
    rw other (rw (split-dot units b rest) refl)

pub split-whole : (a : List ℕ) → includes dot a ≡ false → split a ≡ a ∷ []
unfolding split
split-whole [] h = refl
split-whole (unit ∷ units) h =
    let other : (unit == 46) ≡ false = ground arith in
    let rest : includes dot units ≡ false = ground arith in
    rw other (rw (split-whole units rest) refl)

pub same_list_self : (a : List ℕ) → same_list a a ≡ true
same_list_self [] = refl
same_list_self (x ∷ xs) = ground (arith, same_list_self xs)

pub same_list-eq : (a b : List ℕ) → same_list a b ≡ true → a ≡ b
same_list-eq [] [] h = refl
same_list-eq [] (y ∷ ys) h = cc
same_list-eq (x ∷ xs) [] h = cc
same_list-eq (x ∷ xs) (y ∷ ys) h = ground (arith, same_list-eq xs ys)
