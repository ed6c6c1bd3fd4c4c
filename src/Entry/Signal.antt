-- ===== src/Entry/Signal.antt =====
-- Signals of src/mss/analysis/frozen_shadow_strategy_adapter.py, and the fields of
-- src/mss/domain/pipeline_result.py that it reads.
use mss_package.Common.{Bool, true, false, not, ◌||◌, Option, none, some, [], if◌then◌else◌}
use mss_package.Common.Float.{Float, nought}
use mss_package.Common.Int.{ℤ, pos, leb_ℤ}
use mss_package.Common.Text.{Text, codes, text_eq, is_empty, upper}

pub record PipelineResult (N : Type 0) : Type 0 where
  pub symbol : Text
  pub timeframe : Text
  pub valid : Bool
  pub bos_detected : Bool
  pub bos_direction : Text
  pub last_low : Option N
  pub last_high : Option N

pub data SignalAction : Type 0 where
  wait pending_next_candle_entry : SignalAction

pub data SignalReason : Type 0 where
  no_signal_reason pipeline_result_required symbol_required : SignalReason
  frozen_contract_requires_m15 invalid_signal_bar_epoch pipeline_invalid no_bos : SignalReason
  invalid_bos_direction missing_stop_level invalid_stop_level frozen_bos_signal_armed : SignalReason

pub record FrozenShadowSignal (N : Type 0) : Type 0 where
  pub valid : Bool
  pub action : SignalAction
  pub reason : SignalReason
  pub symbol : Text
  pub timeframe : Text
  pub direction : Text
  pub signal_bar_epoch : ℤ
  pub expected_entry_bar_epoch : ℤ
  pub stop_loss : N
  pub risk_percent : N
  pub reward_risk_ratio : N
  pub slippage_points : N
  pub entry_rule : Text
  pub confluence_used_as_gate : Bool
  pub direction_filtering : Bool
  pub retuning : Bool
  pub real_order_send_allowed : Bool

abbrev pub buy : Text
buy = codes "BUY"

abbrev pub sell : Text
sell = codes "SELL"

-- `_direction_from_bos`
unfoldable pub direction_from_bos : Text → Text
direction_from_bos bos_direction =
    let value = upper bos_direction in
    if text_eq value (codes "BULLISH") || text_eq value buy
    then buy
    else if text_eq value (codes "BEARISH") || text_eq value sell
    then sell
    else []

module _ {N : Type 0} (F : Float N) where
  open F use {ratio, lt, le, add, sub, mul, abs}

  -- `FrozenShadowSignal(reason=..., ...)` with what a refusal sets.
  abbrev pub refused_signal : SignalReason → Text → Text → Text → ℤ → FrozenShadowSignal N
  refused_signal why symbol timeframe direction epoch = record {
    valid = false;
    action = wait;
    reason = why;
    symbol = symbol;
    timeframe = timeframe;
    direction = direction;
    signal_bar_epoch = epoch;
    expected_entry_bar_epoch = pos 0;
    stop_loss = nought F;
    risk_percent = ratio 1 1;
    reward_risk_ratio = ratio 2 1;
    slippage_points = ratio 1 1;
    entry_rule = codes "NEXT_CANDLE_OPEN";
    confluence_used_as_gate = false;
    direction_filtering = false;
    retuning = false;
    real_order_send_allowed = false;
  }

  abbrev pub armed_signal : Text → Text → Text → ℤ → N → FrozenShadowSignal N
  armed_signal symbol timeframe direction epoch stop =
      record (refused_signal frozen_bos_signal_armed symbol timeframe direction epoch) {
        valid = true;
        action = pending_next_candle_entry;
        stop_loss = stop;
      }

  -- The tests of the stop level.
  unfoldable pub arm_with_stop : Text → Text → Text → ℤ → Option N → FrozenShadowSignal N
  arm_with_stop symbol timeframe direction epoch none =
      refused_signal missing_stop_level symbol timeframe direction epoch
  arm_with_stop symbol timeframe direction epoch (some stop) =
      if le stop (nought F)
      then refused_signal invalid_stop_level symbol timeframe direction epoch
      else armed_signal symbol timeframe direction epoch stop

  -- `arm_signal` of a result that is there.
  unfoldable pub arm_pipeline : PipelineResult N → ℤ → FrozenShadowSignal N
  unfolding arm_with_stop
  arm_pipeline p epoch =
      let timeframe = upper p.timeframe in
      let direction = direction_from_bos p.bos_direction in
      if is_empty p.symbol
      then refused_signal symbol_required [] [] [] (pos 0)
      else if not (text_eq timeframe (codes "M15"))
      then refused_signal frozen_contract_requires_m15 p.symbol timeframe [] (pos 0)
      else if leb_ℤ epoch (pos 0)
      then refused_signal invalid_signal_bar_epoch p.symbol timeframe [] (pos 0)
      else if not p.valid
      then refused_signal pipeline_invalid p.symbol timeframe [] epoch
      else if not p.bos_detected
      then refused_signal no_bos p.symbol timeframe [] epoch
      else if is_empty direction
      then refused_signal invalid_bos_direction p.symbol timeframe [] epoch
      else arm_with_stop p.symbol timeframe direction epoch
          (if text_eq direction buy then p.last_low else p.last_high)

  -- `FrozenShadowStrategyAdapter.arm_signal`
  unfoldable pub arm_signal : Option (PipelineResult N) → ℤ → FrozenShadowSignal N
  arm_signal none epoch = refused_signal pipeline_result_required [] [] [] (pos 0)
  arm_signal (some p) epoch = arm_pipeline p epoch
