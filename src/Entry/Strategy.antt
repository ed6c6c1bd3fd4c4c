-- ===== src/Entry/Strategy.antt =====
-- Entries of src/mss/analysis/frozen_shadow_strategy_adapter.py.
use mss_package.Common.{Bool, true, false, not, ◌&&◌, Option, none, some, [], if◌then◌else◌}
use mss_package.Common.Float.{Float, nought}
use mss_package.Common.Int.{ℤ, pos, leb_ℤ}
use mss_package.Common.Text.{Text, text_eq}
use mss_package.Entry.Signal.{
  SignalAction, pending_next_candle_entry, FrozenShadowSignal, buy, sell,
}

pub data EntryReason : Type 0 where
  signal_required signal_not_armed signal_not_pending : EntryReason
  next_candle_sequence_not_confirmed entry_bar_not_after_signal : EntryReason
  invalid_next_candle_open invalid_point invalid_spread invalid_direction : EntryReason
  invalid_buy_stop invalid_sell_stop frozen_next_candle_entry_valid : EntryReason

pub record FrozenShadowEntry (N : Type 0) : Type 0 where
  pub valid : Bool
  pub reason : EntryReason
  pub symbol : Text
  pub timeframe : Text
  pub direction : Text
  pub signal_bar_epoch : ℤ
  pub entry_bar_epoch : ℤ
  pub reference_bar_open : N
  pub spread_points : N
  pub point : N
  pub slippage_points : N
  pub entry_price : N
  pub stop_loss : N
  pub take_profit : N
  pub risk_percent : N
  pub reward_risk_ratio : N
  pub real_order_send_allowed : Bool

-- What the terminal shows at the open of a candle.
pub record Quote (N : Type 0) : Type 0 where
  pub next_candle_open : N
  pub spread_points : N
  pub point : N

abbrev pub is_pending : SignalAction → Bool
is_pending pending_next_candle_entry = true
is_pending _ = false

module _ {N : Type 0} (F : Float N) where
  open F use {ratio, lt, le, add, sub, mul, abs}

  -- `FrozenShadowEntry(reason=..., ...)` with what a refusal sets.
  abbrev pub refused_entry : EntryReason → Text → Text → Text → FrozenShadowEntry N
  refused_entry why symbol timeframe direction = record {
    valid = false;
    reason = why;
    symbol = symbol;
    timeframe = timeframe;
    direction = direction;
    signal_bar_epoch = pos 0;
    entry_bar_epoch = pos 0;
    reference_bar_open = nought F;
    spread_points = nought F;
    point = nought F;
    slippage_points = nought F;
    entry_price = nought F;
    stop_loss = nought F;
    take_profit = nought F;
    risk_percent = ratio 1 1;
    reward_risk_ratio = ratio 2 1;
    real_order_send_allowed = false;
  }

  abbrev pub refused_for : EntryReason → FrozenShadowSignal N → FrozenShadowEntry N
  refused_for why s = refused_entry why s.symbol s.timeframe s.direction

  -- The fields of a refusal at the stop.
  abbrev refused_stop : EntryReason → FrozenShadowSignal N → ℤ → N → N → FrozenShadowEntry N
  refused_stop why s epoch open_price entry_price = record (refused_for why s) {
    signal_bar_epoch = s.signal_bar_epoch;
    entry_bar_epoch = epoch;
    reference_bar_open = open_price;
    entry_price = entry_price;
    stop_loss = s.stop_loss;
  }

  -- `take_profit`
  abbrev pub target_of : Text → N → N → N → N
  target_of direction entry_price stop ratio_of =
      if text_eq direction buy
      then add entry_price (mul (abs (sub entry_price stop)) ratio_of)
      else sub entry_price (mul (abs (sub entry_price stop)) ratio_of)

  abbrev pub active_entry : FrozenShadowSignal N → ℤ → Quote N → N → FrozenShadowEntry N
  active_entry s epoch q entry_price = record {
    valid = true;
    reason = frozen_next_candle_entry_valid;
    symbol = s.symbol;
    timeframe = s.timeframe;
    direction = s.direction;
    signal_bar_epoch = s.signal_bar_epoch;
    entry_bar_epoch = epoch;
    reference_bar_open = q.next_candle_open;
    spread_points = q.spread_points;
    point = q.point;
    slippage_points = s.slippage_points;
    entry_price = entry_price;
    stop_loss = s.stop_loss;
    take_profit = target_of s.direction entry_price s.stop_loss s.reward_risk_ratio;
    risk_percent = s.risk_percent;
    reward_risk_ratio = s.reward_risk_ratio;
    real_order_send_allowed = false;
  }

  -- `entry_price`, with `none` for another direction.
  unfoldable pub price_of : FrozenShadowSignal N → Quote N → Option N
  price_of s q =
      if text_eq s.direction buy
      then some (
          add (add q.next_candle_open (mul q.spread_points q.point))
            (mul s.slippage_points q.point))
      else if text_eq s.direction sell
      then some (
          sub (sub q.next_candle_open (mul q.spread_points q.point))
            (mul s.slippage_points q.point))
      else none

  -- From the entry price on.
  unfoldable pub activate_at : FrozenShadowSignal N → ℤ → Quote N → Option N → FrozenShadowEntry N
  activate_at s epoch q none = refused_for invalid_direction s
  activate_at s epoch q (some entry_price) =
      if text_eq s.direction buy && le entry_price s.stop_loss
      then refused_stop invalid_buy_stop s epoch q.next_candle_open entry_price
      else if text_eq s.direction sell && le s.stop_loss entry_price
      then refused_stop invalid_sell_stop s epoch q.next_candle_open entry_price
      else active_entry s epoch q entry_price

  -- `activate_entry` of a signal that is there.
  unfoldable pub activate_signal : FrozenShadowSignal N → ℤ → Bool → Quote N → FrozenShadowEntry N
  activate_signal s epoch confirmed q =
      if not s.valid
      then refused_for signal_not_armed s
      else if not (is_pending s.action)
      then refused_for signal_not_pending s
      else if not confirmed
      then record (refused_for next_candle_sequence_not_confirmed s) {
        signal_bar_epoch = s.signal_bar_epoch;
        entry_bar_epoch = epoch;
      }
      else if leb_ℤ epoch s.signal_bar_epoch
      then record (refused_for entry_bar_not_after_signal s) {
        signal_bar_epoch = s.signal_bar_epoch;
        entry_bar_epoch = epoch;
      }
      else if le q.next_candle_open (nought F)
      then refused_for invalid_next_candle_open s
      else if le q.point (nought F)
      then refused_for invalid_point s
      else if lt q.spread_points (nought F)
      then refused_for invalid_spread s
      else activate_at s epoch q (price_of s q)

  -- `FrozenShadowStrategyAdapter.activate_entry`
  unfoldable pub activate_entry :
      Option (FrozenShadowSignal N) → ℤ → Bool → Quote N → FrozenShadowEntry N
  activate_entry none epoch confirmed q = refused_entry signal_required [] [] []
  activate_entry (some s) epoch confirmed q = activate_signal s epoch confirmed q
