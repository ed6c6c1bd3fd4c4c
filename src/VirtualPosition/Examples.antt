-- ===== src/VirtualPosition/Examples.antt =====
-- A purchase that is opened, updated inside its levels, and stopped out.
use mss_package.Common.{◌≡◌, ◌⊎◌, refl}
use mss_package.Common.Fixed.{Fixed, fix, fixed, fixed_sub}
use mss_package.Common.Int.{pos}
use mss_package.Common.Text.{codes, text_eq, upper}
use mss_package.VirtualPosition.Engine.{
  VirtualPosition, OpenArguments, empty_position, opened_position, are_levels_ordered,
  open_position, market_close_price, crossed_level, exit_trigger, update_from_tick,
}
use mss_package.VirtualPosition.Lifecycle.{Reaches, done, next, tick, KeptOrClosed, position_life}
use mss_package.VirtualPosition.Opening.{IsTradable, open_position_decides}

abbrev purchase : OpenArguments Fixed
purchase = record {
  position_id = codes "P1";
  symbol = codes "EURUSD";
  direction = codes "buy";
  volume = fix 100;
  entry_price = fix 1100;
  stop_loss = fix 1090;
  take_profit = fix 1120;
  broker_epoch = pos 1780000000;
  broker_position_ticket = pos 0;
  broker_position_identifier = pos 0;
}

purchase_opens : open_position fixed purchase ≡ opened_position fixed purchase
unfolding open_position are_levels_ordered text_eq upper fixed_sub
purchase_opens = refl

purchase_stopped :
    (update_from_tick fixed
      (opened_position fixed purchase)
      (fix 1089)
      (fix 1091)
      (pos 1780000060)).reason
    ≡ codes "STOP_LOSS"
unfolding update_from_tick exit_trigger crossed_level market_close_price text_eq upper
purchase_stopped = refl

open_position_decides_example :
    (IsTradable fixed (opened_position fixed purchase)
      × (open_position fixed purchase ≡ opened_position fixed purchase))
    ⊎ (¬ IsTradable fixed (opened_position fixed purchase)
        × (open_position fixed purchase ≡ empty_position fixed))
open_position_decides_example = open_position_decides fixed purchase

-- After a tick inside the levels and one at the stop.
abbrev stopped : VirtualPosition Fixed
stopped =
    (update_from_tick fixed
      (update_from_tick fixed (open_position fixed purchase) (fix 1101) (fix 1103)
        (pos 1780000030)).position
      (fix 1089) (fix 1091) (pos 1780000060)).position

two_ticks : Reaches fixed (open_position fixed purchase) stopped
two_ticks =
    next (tick (fix 1101) (fix 1103) (pos 1780000030) refl)
      (next (tick (fix 1089) (fix 1091) (pos 1780000060) refl) done)

position_life_example :
    (stopped ≡ empty_position fixed)
    ⊎ (IsTradable fixed (opened_position fixed purchase)
        × KeptOrClosed fixed (opened_position fixed purchase) stopped)
position_life_example = position_life fixed purchase stopped two_ticks
