-- ===== src/Entry/Examples.antt =====
-- A break of structure upwards in EURUSD, entered a second after the next bar has opened.
use mss_package.Common.{◌≡◌, refl, true, Option, some}
use mss_package.Common.Fixed.{Fixed, fix, fixed, fixed_add, fixed_sub}
use mss_package.Common.Int.{pos, ◌-ℤ◌}
use mss_package.Common.Text.{codes, text_eq, upper}
use mss_package.Entry.Contract.{KeepsContract, allowed-KeepsContract}
use mss_package.Entry.Signal.{
  PipelineResult, FrozenShadowSignal, direction_from_bos, arm_with_stop, arm_pipeline, arm_signal,
}
use mss_package.Entry.Strategy.{Quote, price_of, activate_at, activate_signal, activate_entry}
use mss_package.Entry.Timing.{IsReady, evaluate-IsReady}
use mss_package.Entry.Watcher.{Observation, take_entry, take_signal, check_times, evaluate}

abbrev result : Option (PipelineResult Fixed)
result = some (record {
  symbol = codes "EURUSD";
  timeframe = codes "m15";
  valid = true;
  bos_detected = true;
  bos_direction = codes "bullish";
  last_low = some (fix 1090);
  last_high = some (fix 1110);
})

abbrev signal : FrozenShadowSignal Fixed
signal = arm_signal fixed result (pos 1780000200)

abbrev observation : Observation
observation = record {
  previous_current_bar_epoch = pos 1780000200;
  current_bar_epoch = pos 1780001100;
  observation_broker_epoch = pos 1780001101;
  next_candle_sequence_confirmed = true;
}

abbrev quote : Quote Fixed
quote = record { next_candle_open = fix 1100; spread_points = fix 2000; point = fix 1 }

entry_allowed : (evaluate fixed (some signal) observation quote).shadow_entry_allowed ≡ true
unfolding evaluate check_times take_signal take_entry activate_entry activate_signal activate_at
    price_of arm_signal arm_pipeline arm_with_stop direction_from_bos text_eq upper fixed_add
    fixed_sub ◌-ℤ◌
entry_allowed = refl

allowed-KeepsContract_example :
    KeepsContract fixed result
      (pos 1780000200)
      observation
      quote
      (evaluate fixed (some (arm_signal fixed result (pos 1780000200))) observation quote).entry
allowed-KeepsContract_example =
    allowed-KeepsContract fixed result (pos 1780000200) observation quote entry_allowed

evaluate-IsReady_example :
    IsReady fixed (some signal) observation quote (evaluate fixed (some signal) observation quote)
evaluate-IsReady_example = evaluate-IsReady fixed (some signal) observation quote entry_allowed
