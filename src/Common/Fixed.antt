-- ===== src/Common/Fixed.antt =====
-- A concrete number type for the examples: thousandths, with a value that is not a number.
use Prim.Native.Nat.{ℕ, ◌*◌, ◌/◌}
use mathlib.Core.Bool.{Bool, true, false}
use mss_package.Common.Tests.{◌==◌, if◌then◌else◌}
use mss_package.Common.Float.{Float}
use mss_package.Common.Int.{ℤ, pos, negsuc, ◌+ℤ◌, ◌-ℤ◌, ltb_ℤ, leb_ℤ, eqb_ℤ, size_ℤ, sub_ℕ}

pub data Fixed : Type 0 where
  nan : Fixed
  num : ℤ → Fixed

abbrev pub test : (ℤ → ℤ → Bool) → Fixed → Fixed → Bool
test f nan b = false
test f (num a) nan = false
test f (num a) (num b) = f a b

abbrev pub combine : (ℤ → ℤ → ℤ) → Fixed → Fixed → Fixed
combine f nan b = nan
combine f (num a) nan = nan
combine f (num a) (num b) = num (f a b)

abbrev pub with_sign_of : ℤ → ℤ → ℕ → ℤ
with_sign_of (pos _) (pos _) n = pos n
with_sign_of (negsuc _) (negsuc _) n = pos n
with_sign_of (pos _) (negsuc _) n = sub_ℕ 0 n
with_sign_of (negsuc _) (pos _) n = sub_ℕ 0 n

abbrev pub divide : Fixed → Fixed → Fixed
divide nan b = nan
divide (num a) nan = nan
divide (num a) (num b) =
    if size_ℤ b == 0 then nan else num (with_sign_of a b (size_ℤ a * 1000 / size_ℤ b))

abbrev pub absolute : Fixed → Fixed
absolute nan = nan
absolute (num a) = num (pos (size_ℤ a))

abbrev pub is_number : Fixed → Bool
is_number nan = false
is_number (num _) = true

-- `fix 20` is 0.020.
abbrev pub fix : ℕ → Fixed
fix n = num (pos n)

unfoldable pub fixed_add : Fixed → Fixed → Fixed
unfolding ◌+ℤ◌
fixed_add = combine ◌+ℤ◌

unfoldable pub fixed_sub : Fixed → Fixed → Fixed
unfolding ◌-ℤ◌
fixed_sub = combine ◌-ℤ◌

abbrev pub fixed : Float Fixed
fixed = record {
  ratio = λ n d. num (pos (n * 1000 / d));
  lt = test ltb_ℤ;
  le = test leb_ℤ;
  eq = test eqb_ℤ;
  add = fixed_add;
  sub = fixed_sub;
  mul = combine (λ a b. with_sign_of a b (size_ℤ a * size_ℤ b / 1000));
  div = divide;
  abs = absolute;
  is_finite = is_number;
}
