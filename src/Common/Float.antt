-- ===== src/Common/Float.antt =====
-- Python's `float`: a type with the operations that the program uses. Nothing else is assumed of
-- it, so NaN and the infinities are allowed for; theorems that need an order name its laws.
use mathlib.Core.Bool.{Bool}
use mathlib.Core.List.{List, foldl}
use Prim.Native.Nat.{ℕ}

pub record Float (N : Type 0) : Type 0 where
  -- The float nearest to a quotient of two numbers: `ratio 1 5` is 0.2.
  pub ratio : ℕ → ℕ → N
  pub lt : N → N → Bool
  pub le : N → N → Bool
  pub eq : N → N → Bool
  pub add : N → N → N
  pub sub : N → N → N
  pub mul : N → N → N
  pub div : N → N → N
  pub abs : N → N
  pub is_finite : N → Bool

module _ {N : Type 0} (F : Float N) where
  open F use {ratio, add}

  abbrev pub nought : N
  nought = ratio 0 1

  -- `sum(xs)`, from the left.
  unfoldable pub sum : List N → N
  sum = foldl add nought
