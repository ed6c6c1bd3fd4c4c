-- ===== src/Sizing/Bounds.antt =====
-- What a valid size keeps to.
use mss_package.Common.{◌≡◌, ◌⊎◌, true, false, some, ok}
use mss_package.Common.Float.{Float, nought}
use mss_package.Common.Int.{ℤ}
use mss_package.Common.Text.{Text, codes, upper}
use mss_package.Sizing.{
  OrderType, order_type_buy, order_type_sell, SymbolInfo, Terminal, Rounding, ShadowRiskResult,
  RiskArguments, float_or_zero, sized, amount_of,
}

module _ {N : Type 0} (F : Float N) (T : Terminal N) (R : Rounding N) where
  open F use {lt, le, add, mul, div, abs, ratio}

  -- The stop is on the side of the entry that the direction asks for.
  abbrev pub IsStopSided : RiskArguments N → OrderType → Type 0
  IsStopSided a order_type_buy =
      (upper a.direction ≡ codes "BUY") × (le a.entry_price a.stop_loss ≡ false)
  IsStopSided a order_type_sell =
      (upper a.direction ≡ codes "SELL") × (le a.stop_loss a.entry_price ≡ false)

  -- A volume is a whole number of steps of the risk's volume, cut down to the broker's maximum.
  pub record IsVolume (raw volume_min volume_max step normalized : N) : Type 0 where
    pub steps : ℤ
    pub steps_of : R.floor (add (div raw step) (ratio 1 1000000000000)) ≡ ok steps
    pub steps_under_risk : le (R.of_int steps) (add (div raw step) (ratio 1 1000000000000)) ≡ true
    pub volume : N
    pub volume_is : normalized ≡ R.round_to volume 8
    pub in_steps :
        (volume ≡ mul (R.of_int steps) step)
        ⊎ ((volume ≡ volume_max) × (lt volume_max (mul (R.of_int steps) step) ≡ true))
    pub over_min : lt volume volume_min ≡ false
    pub under_max : lt volume_max volume ≡ false

  -- What a valid result says of its arguments.
  pub record IsSized (a : RiskArguments N) (r : ShadowRiskResult N) : Type 0 where
    pub order_type : OrderType
    pub stop_sided : IsStopSided a order_type
    pub balance_positive : le a.balance (nought F) ≡ false
    pub info : SymbolInfo N
    pub known : T.symbol_info a.symbol ≡ some info
    pub profit : N
    pub valued :
        T.order_calc_profit order_type a.symbol (ratio 1 1) a.entry_price a.stop_loss ≡ some profit
    pub result :
        r
        ≡ sized F a info
            (amount_of F a)
            (abs profit)
            (div (amount_of F a) (abs profit))
            r.normalized_volume
    pub positive : le r.normalized_volume (nought F) ≡ false
    pub sound :
        IsVolume
          (div (amount_of F a) (abs profit))
          (float_or_zero F info.volume_min)
          (float_or_zero F info.volume_max)
          (float_or_zero F info.volume_step)
          r.normalized_volume

  -- IEEE's order, the floor of a float, and the terminal's limits.
  module _ (irreflexive : (x : N) → lt x x ≡ false)
      (zero_reflexive : le (nought F) (nought F) ≡ true)
      (floor_under : (x : N) (n : ℤ) → R.floor x ≡ ok n → le (R.of_int n) x ≡ true)
      (limits_ordered : (symbol : Text) (info : SymbolInfo N)
        → T.symbol_info symbol ≡ some info
        → lt (float_or_zero F info.volume_max) (float_or_zero F info.volume_min) ≡ false) where
    -- The last two results.
    record IsSizedOf (a : RiskArguments N) (order_type : OrderType) (info : SymbolInfo N)
        (r : ShadowRiskResult N) : Type 0 where
      profit : N
      valued :
          T.order_calc_profit order_type a.symbol (ratio 1 1) a.entry_price a.stop_loss
          ≡ some profit
      result :
          r
          ≡ sized F a info
              (amount_of F a)
              (abs profit)
              (div (amount_of F a) (abs profit))
              r.normalized_volume
      positive : le r.normalized_volume (nought F) ≡ false
      sound :
          IsVolume
            (div (amount_of F a) (abs profit))
            (float_or_zero F info.volume_min)
            (float_or_zero F info.volume_max)
            (float_or_zero F info.volume_step)
            r.normalized_volume
