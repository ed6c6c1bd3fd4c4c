-- ===== src/ShadowTrade/Override.antt =====
-- The checks of `volume_override` in `open_trade` of src/mss/analysis/shadow_trade_engine.py.
use mss_package.Common.{◌||◌, Option, none, some, if◌then◌else◌, Result, ok, err}
use mss_package.Common.Float.{Float, nought}
use mss_package.Common.Int.{ℤ}
use mss_package.Sizing.{Rounding, RoundingError, ShadowRiskResult}
use mss_package.ShadowTrade.{
  TradeReason, invalid_volume_override, volume_override_exceeds_risk_normalized_volume,
  volume_override_outside_broker_limits, invalid_broker_volume_step,
  volume_override_not_on_broker_step,
}

-- What the checks of `volume_override` end with: a reason to block, or the risk to trade with.
pub data Checked (N : Type 0) : Type 0 where
  blocked : TradeReason → Checked N
  tradable : ShadowRiskResult N → Checked N

module _ {N : Type 0} (F : Float N) (R : Rounding N) where
  open F use {lt, le, add, sub, mul, div, abs, ratio}

  -- `max(1e-12, float(risk.volume_step) * 1e-9)`
  abbrev pub tolerance : ShadowRiskResult N → N
  tolerance risk =
      if lt (ratio 1 1000000000000) (mul risk.volume_step (ratio 1 1000000000))
      then mul risk.volume_step (ratio 1 1000000000)
      else ratio 1 1000000000000

  -- The `replace` of the risk.
  abbrev pub overridden : ShadowRiskResult N → N → N → ShadowRiskResult N
  overridden risk balance override = record risk {
    risk_amount = mul risk.loss_per_one_lot override;
    risk_percent = mul (div (mul risk.loss_per_one_lot override) balance) (ratio 100 1);
    normalized_volume = override;
  }

  -- The test of the steps.
  unfoldable pub check_step :
      ShadowRiskResult N → N → N → Result RoundingError ℤ → Result RoundingError (Checked N)
  check_step risk balance override (err e) = err e
  check_step risk balance override (ok steps) =
      if lt (tolerance risk) (abs (sub override (mul (R.of_int steps) risk.volume_step)))
      then ok (blocked volume_override_not_on_broker_step)
      else ok (tradable (overridden risk balance override))

  -- The part under `if volume_override is not None`.
  unfoldable pub check_override :
      ShadowRiskResult N → N → Option N → Result RoundingError (Checked N)
  unfolding check_step
  check_override risk balance none = ok (tradable risk)
  check_override risk balance (some override) =
      if le override (nought F)
      then ok (blocked invalid_volume_override)
      else if lt (add risk.normalized_volume (tolerance risk)) override
      then ok (blocked volume_override_exceeds_risk_normalized_volume)
      else if lt override (sub risk.volume_min (tolerance risk))
          || lt (add risk.volume_max (tolerance risk)) override
      then ok (blocked volume_override_outside_broker_limits)
      else if le risk.volume_step (nought F)
      then ok (blocked invalid_broker_volume_step)
      else check_step risk balance override (R.nearest (div override risk.volume_step))
