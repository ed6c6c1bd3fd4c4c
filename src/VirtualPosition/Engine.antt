-- ===== src/VirtualPosition/Engine.antt =====
-- `VirtualPositionEngine` of src/mss/analysis/virtual_position_engine.py.
use mss_package.Common.{Bool, true, false, not, ◌&&◌, ◌||◌, Option, none, some, [], if◌then◌else◌}
use mss_package.Common.Float.{Float, nought}
use mss_package.Common.Int.{ℤ, pos}
use mss_package.Common.Text.{Text, codes, text_eq, is_empty, upper}

pub data Status : Type 0 where
  status_new status_open status_closed : Status

abbrev pub is_open : Status → Bool
is_open status_open = true
is_open _ = false

pub record VirtualPosition (N : Type 0) : Type 0 where
  pub position_id : Text
  pub symbol : Text
  pub direction : Text
  pub volume : N
  pub entry_price : N
  pub stop_loss : N
  pub take_profit : N
  pub initial_risk_price : N
  pub open_broker_epoch : ℤ
  pub close_broker_epoch : ℤ
  pub broker_position_ticket : ℤ
  pub broker_position_identifier : ℤ
  pub status : Status
  pub exit_reason : Text
  pub close_price : N
  pub pnl_account_currency : N
  pub r_multiple : N
  pub valid : Bool
  pub real_order_send_allowed : Bool

pub record VirtualPositionUpdate (N : Type 0) : Type 0 where
  pub position : VirtualPosition N
  pub closed : Bool
  pub reason : Text
  pub valuation_available : Bool

-- The arguments of `open_position`.
pub record OpenArguments (N : Type 0) : Type 0 where
  pub position_id : Text
  pub symbol : Text
  pub direction : Text
  pub volume : N
  pub entry_price : N
  pub stop_loss : N
  pub take_profit : N
  pub broker_epoch : ℤ
  pub broker_position_ticket : ℤ
  pub broker_position_identifier : ℤ

abbrev pub buy : Text
buy = codes "BUY"

abbrev pub sell : Text
sell = codes "SELL"

module _ {N : Type 0} (F : Float N) where
  open F use {lt, le, sub, div, abs}

  -- `VirtualPosition()`
  abbrev pub empty_position : VirtualPosition N
  empty_position = record {
    position_id = [];
    symbol = [];
    direction = [];
    volume = nought F;
    entry_price = nought F;
    stop_loss = nought F;
    take_profit = nought F;
    initial_risk_price = nought F;
    open_broker_epoch = pos 0;
    close_broker_epoch = pos 0;
    broker_position_ticket = pos 0;
    broker_position_identifier = pos 0;
    status = status_new;
    exit_reason = [];
    close_price = nought F;
    pnl_account_currency = nought F;
    r_multiple = nought F;
    valid = false;
    real_order_send_allowed = false;
  }

  -- The position that is returned where all tests pass.
  abbrev pub opened_position : OpenArguments N → VirtualPosition N
  opened_position a = record {
    position_id = a.position_id;
    symbol = a.symbol;
    direction = upper a.direction;
    volume = a.volume;
    entry_price = a.entry_price;
    stop_loss = a.stop_loss;
    take_profit = a.take_profit;
    initial_risk_price = abs (sub a.entry_price a.stop_loss);
    open_broker_epoch = a.broker_epoch;
    close_broker_epoch = pos 0;
    broker_position_ticket = a.broker_position_ticket;
    broker_position_identifier = a.broker_position_identifier;
    status = status_open;
    exit_reason = [];
    close_price = nought F;
    pnl_account_currency = nought F;
    r_multiple = nought F;
    valid = true;
    real_order_send_allowed = false;
  }

  -- The two tests of the order of the prices, for a direction in capitals.
  unfoldable pub are_levels_ordered : Text → N → N → N → Bool
  are_levels_ordered direction entry_price stop_loss take_profit =
      (not (text_eq direction buy) || (lt stop_loss entry_price && lt entry_price take_profit))
      && (not (text_eq direction sell) || (lt take_profit entry_price && lt entry_price stop_loss))

  -- `VirtualPositionEngine.open_position`
  unfoldable pub open_position : OpenArguments N → VirtualPosition N
  open_position a =
      let direction = upper a.direction in
      if is_empty a.position_id
      then empty_position
      else if is_empty a.symbol
      then empty_position
      else if not (text_eq direction buy || text_eq direction sell)
      then empty_position
      else if le a.volume (nought F)
      then empty_position
      else if le a.entry_price (nought F)
          || le a.stop_loss (nought F)
          || le a.take_profit (nought F)
      then empty_position
      else if not (are_levels_ordered direction a.entry_price a.stop_loss a.take_profit)
      then empty_position
      else if le (abs (sub a.entry_price a.stop_loss)) (nought F)
      then empty_position
      else opened_position a

  -- `VirtualPositionEngine.market_close_price`
  unfoldable pub market_close_price : Text → N → N → N
  market_close_price direction bid ask =
      if text_eq (upper direction) buy
      then bid
      else if text_eq (upper direction) sell
      then ask
      else nought F

  abbrev pub stop_loss_reason : Text
  stop_loss_reason = codes "STOP_LOSS"

  abbrev pub take_profit_reason : Text
  take_profit_reason = codes "TAKE_PROFIT"

  -- The tests of a price against the levels.
  unfoldable pub crossed_level : VirtualPosition N → N → Option Text
  crossed_level p price =
      if text_eq p.direction buy
      then (if le price p.stop_loss
          then some stop_loss_reason
          else if le p.take_profit price
          then some take_profit_reason
          else none)
      else if text_eq p.direction sell
      then (if le p.stop_loss price
          then some stop_loss_reason
          else if le price p.take_profit
          then some take_profit_reason
          else none)
      else none

  -- `VirtualPositionEngine.exit_trigger`
  unfoldable pub exit_trigger : VirtualPosition N → N → N → Option Text
  unfolding crossed_level
  exit_trigger p bid ask =
      let close_price = market_close_price p.direction bid ask in
      if not p.valid
      then none
      else if not (is_open p.status)
      then none
      else if le close_price (nought F)
      then none
      else crossed_level p close_price

  -- `VirtualPositionEngine.price_r_multiple`
  unfoldable pub price_r_multiple : VirtualPosition N → N → N
  price_r_multiple p close_price =
      if not p.valid || le p.initial_risk_price (nought F)
      then nought F
      else if text_eq p.direction buy
      then div (sub close_price p.entry_price) p.initial_risk_price
      else if text_eq p.direction sell
      then div (sub p.entry_price close_price) p.initial_risk_price
      else nought F

  -- `VirtualPositionEngine.close_position`
  unfoldable pub close_position : VirtualPosition N → N → ℤ → Text → N → VirtualPosition N
  close_position p close_price broker_epoch reason pnl =
      if not p.valid
      then p
      else if not (is_open p.status)
      then p
      else if le close_price (nought F)
      then p
      else record p {
        close_broker_epoch = broker_epoch;
        status = status_closed;
        exit_reason = reason;
        close_price = close_price;
        pnl_account_currency = pnl;
        r_multiple = price_r_multiple p close_price;
      }

  abbrev pub positioned : VirtualPosition N → N → N → ℤ → Option Text → VirtualPositionUpdate N
  positioned p bid ask broker_epoch none = record {
    position = p;
    closed = false;
    reason = codes "POSITION_REMAINS_OPEN";
    valuation_available = false;
  }
  positioned p bid ask broker_epoch (some trigger) = record {
    position =
        close_position p (market_close_price p.direction bid ask) broker_epoch trigger (nought F);
    closed = true;
    reason = trigger;
    valuation_available = false;
  }

  -- `VirtualPositionEngine.update_from_tick`
  unfoldable pub update_from_tick : VirtualPosition N → N → N → ℤ → VirtualPositionUpdate N
  update_from_tick p bid ask broker_epoch =
      positioned p bid ask broker_epoch (exit_trigger p bid ask)
