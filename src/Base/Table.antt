-- ===== src/Base/Table.antt =====
-- A table by its primary key.
use token_pilot.Base.Tests.{if◌then◌else◌, ◌==◌}
use Prim.Native.Nat.{ℕ}
use mathlib.Core.Path.{◌≡◌}
use mathlib.Core.Logic.{◌≢◌}
use mathlib.Core.Option.{Option, some}
use native.Mathlib.Omega.{arith}

abbrev pub Table : Type 0 → Type 0
Table A = ℕ → Option A

module _ {A : Type 0} where
  unfoldable pub put : Table A → ℕ → A → Table A
  put table k a j = if j == k then some a else table j

  pub put_self : (table : Table A) (k : ℕ) (a : A) → put table k a k ≡ some a
  unfolding put
  put_self table k a = ground arith

  pub put_ne : (table : Table A) (k : ℕ) (a : A) (j : ℕ) → j ≢ k → put table k a j ≡ table j
  unfolding put
  put_ne table k a j h = ground arith
