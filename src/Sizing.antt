-- ===== src/Sizing.antt =====
-- src/mss/analysis/shadow_risk_calculator.py: the volume of a paper trade, from the risk that is
-- asked for and the broker's limits. The terminal and the rounding of floats are parameters.
pub mod Bounds
pub mod Examples
use mss_package.Common.{
  Bool, true, false, not, ◌&&◌, ◌||◌, Option, none, some, [], if◌then◌else◌, Result, ok, err, ◌>>=◌,
  ℕ,
}
use mss_package.Common.Float.{Float, nought}
use mss_package.Common.Int.{ℤ}
use mss_package.Common.Text.{Text, codes, text_eq, is_empty, upper}

-- `mt5.ORDER_TYPE_BUY` and `mt5.ORDER_TYPE_SELL`
pub data OrderType : Type 0 where
  order_type_buy order_type_sell : OrderType

-- The attributes of a symbol, which may be absent.
pub record SymbolInfo (N : Type 0) : Type 0 where
  pub volume_min : Option N
  pub volume_max : Option N
  pub volume_step : Option N

-- The calls of the terminal.
pub record Terminal (N : Type 0) : Type 0 where
  pub symbol_info : Text → Option (SymbolInfo N)
  pub order_calc_profit : OrderType → Text → N → N → N → Option N

-- `ValueError` of NaN and `OverflowError` of an infinity.
pub data RoundingError : Type 0 where
  of_nan of_infinity : RoundingError

pub record Rounding (N : Type 0) : Type 0 where
  -- `math.floor(x)`
  pub floor : N → Result RoundingError ℤ
  -- `round(x)`
  pub nearest : N → Result RoundingError ℤ
  -- `round(x, n)`
  pub round_to : N → ℕ → N
  -- `float(n)`
  pub of_int : ℤ → N

pub data SizeReason : Type 0 where
  no_reason symbol_required invalid_direction invalid_balance invalid_risk_percent : SizeReason
  invalid_price_or_stop buy_stop_must_be_below_entry sell_stop_must_be_above_entry : SizeReason
  symbol_info_unavailable order_calc_profit_unavailable nonpositive_one_lot_loss : SizeReason
  risk_volume_below_broker_minimum shadow_risk_size_valid : SizeReason

pub record ShadowRiskResult (N : Type 0) : Type 0 where
  pub valid : Bool
  pub reason : SizeReason
  pub symbol : Text
  pub direction : Text
  pub balance : N
  pub risk_percent : N
  pub risk_amount : N
  pub entry_price : N
  pub stop_loss : N
  pub loss_per_one_lot : N
  pub raw_volume : N
  pub normalized_volume : N
  pub volume_min : N
  pub volume_max : N
  pub volume_step : N
  pub order_calc_profit_used : Bool
  pub real_order_send_allowed : Bool

-- The arguments of `calculate`.
pub record RiskArguments (N : Type 0) : Type 0 where
  pub symbol : Text
  pub direction : Text
  pub balance : N
  pub risk_percent : N
  pub entry_price : N
  pub stop_loss : N

-- `_direction_to_order_type`
unfoldable pub direction_to_order_type : Text → Option OrderType
direction_to_order_type direction =
    if text_eq (upper direction) (codes "BUY")
    then some order_type_buy
    else if text_eq (upper direction) (codes "SELL")
    then some order_type_sell
    else none

module _ {N : Type 0} (F : Float N) where
  open F use {lt, le, eq, add, mul, div, abs, ratio}

  -- `ShadowRiskResult()`
  abbrev pub empty_risk : ShadowRiskResult N
  empty_risk = record {
    valid = false;
    reason = no_reason;
    symbol = [];
    direction = [];
    balance = nought F;
    risk_percent = nought F;
    risk_amount = nought F;
    entry_price = nought F;
    stop_loss = nought F;
    loss_per_one_lot = nought F;
    raw_volume = nought F;
    normalized_volume = nought F;
    volume_min = nought F;
    volume_max = nought F;
    volume_step = nought F;
    order_calc_profit_used = false;
    real_order_send_allowed = false;
  }

  -- A result that is not valid: after the test of the direction, of the balance, and of the prices.
  abbrev pub refused_direction : SizeReason → RiskArguments N → ShadowRiskResult N
  refused_direction why a = record empty_risk {
    reason = why;
    symbol = a.symbol;
    direction = a.direction;
  }

  abbrev pub refused_percent : SizeReason → RiskArguments N → ShadowRiskResult N
  refused_percent why a = record (refused_direction why a) {
    balance = a.balance;
    risk_percent = a.risk_percent;
  }

  abbrev pub refused_prices : SizeReason → RiskArguments N → ShadowRiskResult N
  refused_prices why a = record (refused_percent why a) {
    entry_price = a.entry_price;
    stop_loss = a.stop_loss;
  }

  -- `float(getattr(info, name, 0.0) or 0.0)`
  abbrev pub float_or_zero : Option N → N
  float_or_zero none = nought F
  float_or_zero (some x) = if eq x (nought F) then nought F else x

  -- `min(a, b)`
  abbrev pub min : N → N → N
  min a b = if lt b a then b else a

  -- The volume after its rounding down to a step.
  unfoldable pub limit_volume : Rounding N → N → N → N → N
  limit_volume R normalized volume_min volume_max =
      if lt normalized volume_min then nought F else R.round_to (min normalized volume_max) 8

  -- `_normalize_volume_down`
  unfoldable pub normalize_volume_down : Rounding N → N → N → N → N → Result RoundingError N
  unfolding limit_volume
  normalize_volume_down R raw_volume volume_min volume_max volume_step =
      if le raw_volume (nought F)
        || le volume_min (nought F)
        || le volume_max (nought F)
        || le volume_step (nought F)
      then ok (nought F)
      else R.floor (add (div raw_volume volume_step) (ratio 1 1000000000000)) >>= λ steps.
          ok (limit_volume R (mul (R.of_int steps) volume_step) volume_min volume_max)

  -- With what the terminal has said of the symbol.
  abbrev pub with_limits : SymbolInfo N → ShadowRiskResult N → ShadowRiskResult N
  with_limits info risk = record risk {
    volume_min = float_or_zero info.volume_min;
    volume_max = float_or_zero info.volume_max;
    volume_step = float_or_zero info.volume_step;
  }

  -- The two last results, by whether a volume is left.
  unfoldable pub sized : RiskArguments N → SymbolInfo N → N → N → N → N → ShadowRiskResult N
  sized a info risk_amount loss raw_volume normalized =
      if le normalized (nought F)
      then record (with_limits info (refused_prices risk_volume_below_broker_minimum a)) {
        risk_amount = risk_amount;
        loss_per_one_lot = loss;
        raw_volume = raw_volume;
        order_calc_profit_used = true;
      }
      else record (with_limits info (refused_prices shadow_risk_size_valid a)) {
        valid = true;
        direction = upper a.direction;
        risk_amount = risk_amount;
        loss_per_one_lot = loss;
        raw_volume = raw_volume;
        normalized_volume = normalized;
        order_calc_profit_used = true;
      }

  -- `float(balance) * float(risk_percent) / 100.0`
  abbrev pub amount_of : RiskArguments N → N
  amount_of a = div (mul a.balance a.risk_percent) (ratio 100 1)

  -- From the value of one lot on.
  unfoldable pub size_lots :
      Rounding N
      → RiskArguments N
      → SymbolInfo N
      → Option N
      → Result RoundingError (ShadowRiskResult N)
  unfolding sized
  size_lots R a info none = ok (with_limits info (refused_prices order_calc_profit_unavailable a))
  size_lots R a info (some one_lot_profit) =
      if le (abs one_lot_profit) (nought F)
      then ok (record (with_limits info (refused_prices nonpositive_one_lot_loss a)) {
        order_calc_profit_used = true;
      })
      else normalize_volume_down R (div (amount_of a) (abs one_lot_profit))
          (float_or_zero info.volume_min) (float_or_zero info.volume_max)
          (float_or_zero info.volume_step)
        >>= λ normalized. ok (
            sized a info (amount_of a) (abs one_lot_profit) (div (amount_of a) (abs one_lot_profit))
              normalized)

  -- From the terminal's answer on.
  unfoldable pub size_symbol :
      Terminal N
      → Rounding N
      → RiskArguments N
      → OrderType
      → Option (SymbolInfo N)
      → Result RoundingError (ShadowRiskResult N)
  unfolding size_lots
  size_symbol T R a order_type none = ok (refused_prices symbol_info_unavailable a)
  size_symbol T R a order_type (some info) =
      size_lots R a info
        (T.order_calc_profit order_type a.symbol (ratio 1 1) a.entry_price a.stop_loss)

  -- From the test of the direction on.
  unfoldable pub size_direction :
      Terminal N
      → Rounding N
      → RiskArguments N
      → Option OrderType
      → Result RoundingError (ShadowRiskResult N)
  unfolding size_symbol
  size_direction T R a none = ok (refused_direction invalid_direction a)
  size_direction T R a (some order_type) =
      if le a.balance (nought F)
      then ok (refused_direction invalid_balance a)
      else if le a.risk_percent (nought F)
      then ok (refused_percent invalid_risk_percent a)
      else if le a.entry_price (nought F)
          || le a.stop_loss (nought F)
          || eq a.entry_price a.stop_loss
      then ok (refused_prices invalid_price_or_stop a)
      else if text_eq (upper a.direction) (codes "BUY") && le a.entry_price a.stop_loss
      then ok (refused_prices buy_stop_must_be_below_entry a)
      else if text_eq (upper a.direction) (codes "SELL") && le a.stop_loss a.entry_price
      then ok (refused_prices sell_stop_must_be_above_entry a)
      else size_symbol T R a order_type (T.symbol_info a.symbol)

  -- `ShadowRiskCalculator.calculate`
  unfoldable pub calculate :
      Terminal N → Rounding N → RiskArguments N → Result RoundingError (ShadowRiskResult N)
  unfolding size_direction
  calculate T R a =
      if is_empty a.symbol
      then ok (record empty_risk { reason = symbol_required })
      else size_direction T R a (direction_to_order_type a.direction)
