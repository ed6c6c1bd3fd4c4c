-- ===== src/Sizing/Examples.antt =====
-- A purchase with a risk of one percent of ten thousand, and a stop that costs 250 per lot.
use mss_package.Common.{◌+◌}
use mss_package.Common.{◌≡◌, refl, ◌/◌, ◌*◌, false, some, arith, Result, ok, err}
use mss_package.Common.Fixed.{Fixed, nan, num, fix, fixed, fixed_add}
use mss_package.Common.Int.{ℤ, pos, negsuc, ◌+ℤ◌}
use mss_package.Common.Text.{Text, codes, text_eq, upper}
use mss_package.Sizing.{
  SymbolInfo, Terminal, RoundingError, of_nan, Rounding, ShadowRiskResult, RiskArguments,
  direction_to_order_type, limit_volume, normalize_volume_down, sized, size_lots, size_symbol,
  size_direction, calculate,
}

abbrev pub floor_fixed : Fixed → Result RoundingError ℤ
floor_fixed nan = err of_nan
floor_fixed (num (pos n)) = ok (pos (n / 1000))
floor_fixed (num (negsuc n)) = ok (negsuc (n / 1000))

abbrev pub fixed_of : ℤ → Fixed
fixed_of (pos n) = num (pos (n * 1000))
fixed_of (negsuc n) = num (negsuc (n * 1000 + 999))

abbrev pub rounding : Rounding Fixed
rounding = record {
  floor = floor_fixed;
  nearest = floor_fixed;
  round_to = λ x _. x;
  of_int = fixed_of;
}

-- Volumes from 0.01 to 50 in steps of 0.01; one lot loses 250.
abbrev pub euro_info : SymbolInfo Fixed
euro_info = record {
  volume_min = some (fix 10);
  volume_max = some (fix 50000);
  volume_step = some (fix 10);
}

abbrev pub terminal : Terminal Fixed
terminal = record {
  symbol_info = λ _. some euro_info;
  order_calc_profit = λ _ _ _ _ _. some (fix 250000);
}

abbrev pub euro_risk : RiskArguments Fixed
euro_risk = record {
  symbol = codes "EURUSD";
  direction = codes "buy";
  balance = fix 10000000;
  risk_percent = fix 1000;
  entry_price = fix 1100;
  stop_loss = fix 1090;
}

abbrev pub euro_size : ShadowRiskResult Fixed
euro_size = sized fixed euro_risk euro_info (fix 100000) (fix 250000) (fix 400) (fix 400)

pub euro_sized : calculate fixed terminal rounding euro_risk ≡ ok euro_size
unfolding calculate size_direction direction_to_order_type size_symbol size_lots
    normalize_volume_down limit_volume sized fixed_add ◌+ℤ◌ text_eq upper
euro_sized = refl

pub fixed_irreflexive : (x : Fixed) → fixed.lt x x ≡ false
fixed_irreflexive nan = refl
fixed_irreflexive (num a) = ground arith
