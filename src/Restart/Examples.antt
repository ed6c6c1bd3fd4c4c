-- ===== src/Restart/Examples.antt =====
-- A purchase at the broker that is a point away from the one on paper.
use mss_package.Common.{◌≡◌, ◌↔◌, refl, true, [], ◌∷◌}
use mss_package.Common.Fixed.{Fixed, fix, fixed, fixed_sub}
use mss_package.Common.Int.{pos}
use mss_package.Common.Text.{codes, text_eq, strip, upper}
use mss_package.VirtualPosition.Engine.{VirtualPosition, opened_position}
use mss_package.Restart.{
  DemoBrokerPositionSnapshot, magic_number, is_broker_invalid, is_shadow_invalid, mismatch,
  compare_exposure, reconcile,
}
use mss_package.Restart.Match.{AreMatched, resume_allowed_iff}

abbrev shadow : VirtualPosition Fixed
shadow = opened_position fixed (record {
  position_id = codes "P1";
  symbol = codes "EURUSD";
  direction = codes "BUY";
  volume = fix 100;
  entry_price = fix 1100;
  stop_loss = fix 1090;
  take_profit = fix 1120;
  broker_epoch = pos 1780000000;
  broker_position_ticket = pos 0;
  broker_position_identifier = pos 0;
})

abbrev broker : DemoBrokerPositionSnapshot Fixed
broker = record {
  ticket = pos 7;
  identifier = pos 7;
  magic = magic_number;
  symbol = codes "EURUSD";
  direction = codes "buy";
  volume = fix 100;
  entry_price = fix 1101;
  stop_loss = fix 1090;
  take_profit = fix 1120;
  open_broker_epoch = pos 1780000000;
  point = fix 1;
  volume_step = fix 10;
}

resumed : (reconcile fixed (broker ∷ []) (pos 0) (shadow ∷ [])).resume_allowed ≡ true
unfolding reconcile compare_exposure mismatch is_broker_invalid is_shadow_invalid text_eq strip
    upper fixed_sub
resumed = refl

resume_allowed_iff_example :
    ((reconcile fixed (broker ∷ []) (pos 0) (shadow ∷ [])).resume_allowed ≡ true)
    ↔ ((pos 0 ≡ pos 0) × AreMatched fixed (broker ∷ []) (shadow ∷ []))
resume_allowed_iff_example = resume_allowed_iff fixed (broker ∷ []) (pos 0) (shadow ∷ [])
