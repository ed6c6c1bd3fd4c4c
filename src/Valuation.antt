-- ===== src/Valuation.antt =====
-- src/mss/analysis/shadow_trade_valuation.py: the profit of a paper trade, as the terminal computes it.
use mss_package.Common.{Bool, true, false, ◌||◌, Option, none, some, [], if◌then◌else◌}
use mss_package.Common.Float.{Float, nought}
use mss_package.Common.Text.{Text, is_empty, upper}
use mss_package.Sizing.{OrderType, Terminal, direction_to_order_type}

pub data ValuationReason : Type 0 where
  no_reason symbol_required invalid_direction invalid_volume invalid_price : ValuationReason
  order_calc_profit_unavailable shadow_valuation_valid : ValuationReason

pub record ShadowValuationResult (N : Type 0) : Type 0 where
  pub valid : Bool
  pub reason : ValuationReason
  pub symbol : Text
  pub direction : Text
  pub volume : N
  pub entry_price : N
  pub close_price : N
  pub pnl_account_currency : N
  pub order_calc_profit_used : Bool
  pub order_send_called : Bool
  pub order_check_called : Bool
  pub real_order_send_allowed : Bool

-- The arguments of `calculate`.
pub record ValuationArguments (N : Type 0) : Type 0 where
  pub symbol : Text
  pub direction : Text
  pub volume : N
  pub entry_price : N
  pub close_price : N

module _ {N : Type 0} (F : Float N) where
  open F use {le}

  -- `ShadowValuationResult()`
  abbrev pub empty_valuation : ShadowValuationResult N
  empty_valuation = record {
    valid = false;
    reason = no_reason;
    symbol = [];
    direction = [];
    volume = nought F;
    entry_price = nought F;
    close_price = nought F;
    pnl_account_currency = nought F;
    order_calc_profit_used = false;
    order_send_called = false;
    order_check_called = false;
    real_order_send_allowed = false;
  }

  abbrev pub refused_volume : ValuationReason → ValuationArguments N → ShadowValuationResult N
  refused_volume why a = record empty_valuation {
    reason = why;
    symbol = a.symbol;
    direction = upper a.direction;
  }

  -- After the call of `order_calc_profit`.
  unfoldable pub valued : ValuationArguments N → Option N → ShadowValuationResult N
  valued a none = record (refused_volume order_calc_profit_unavailable a) {
    volume = a.volume;
    entry_price = a.entry_price;
    close_price = a.close_price;
  }
  valued a (some pnl) = record (refused_volume shadow_valuation_valid a) {
    valid = true;
    volume = a.volume;
    entry_price = a.entry_price;
    close_price = a.close_price;
    pnl_account_currency = pnl;
    order_calc_profit_used = true;
  }

  -- From the test of the direction on.
  unfoldable pub value_direction :
      Terminal N → ValuationArguments N → Option OrderType → ShadowValuationResult N
  unfolding valued
  value_direction T a none = refused_volume invalid_direction a
  value_direction T a (some order_type) =
      if le a.volume (nought F)
      then refused_volume invalid_volume a
      else if le a.entry_price (nought F) || le a.close_price (nought F)
      then record (refused_volume invalid_price a) { volume = a.volume }
      else valued a (T.order_calc_profit order_type a.symbol a.volume a.entry_price a.close_price)

  -- `ShadowTradeValuation.calculate`
  unfoldable pub calculate : Terminal N → ValuationArguments N → ShadowValuationResult N
  unfolding value_direction
  calculate T a =
      if is_empty a.symbol
      then record empty_valuation { reason = symbol_required }
      else value_direction T a (direction_to_order_type (upper a.direction))
