-- ===== src/ShadowTrade/Open.antt =====
-- `open_trade` of src/mss/analysis/shadow_trade_engine.py.
use mss_package.Common.{true, false, not, none, some, if◌then◌else◌, Result, ok, err}
use mss_package.Common.Float.{Float}
use mss_package.Common.Text.{Text, codes}
use mss_package.Journal.Append.{AppendError, append_event}
use mss_package.Journal.Chain.{File}
use mss_package.Journal.Json.{Fields, Library}
use mss_package.RiskState.Position.{is_prohibited}
use mss_package.Sizing.{
  Terminal, Rounding, RoundingError, ShadowRiskResult, calculate as calculate_risk,
}
use mss_package.VirtualPosition.Engine.{VirtualPosition, open_position}
use mss_package.ShadowTrade.{
  open_blocked, position_opened, of_risk, virtual_position_invalid, shadow_position_opened,
  shadow_true_oos_namespace_collision, of_rounding, of_journal, TradeArguments, Trade, result,
  risk_arguments, position_arguments, opened_payload,
}
use mss_package.ShadowTrade.Override.{Checked, blocked, tradable, check_override}

module _ {N : Type 0} (L : Library N) (F : Float N) (T : Terminal N) (R : Rounding N) where
  -- The result of an opening, from that of `append_event`.
  unfoldable pub opened :
      VirtualPosition N → ShadowRiskResult N → Result AppendError (Fields N) × File → Trade N
  opened p risk (err e, file) = (err (of_journal e), file)
  opened p risk (ok event, file) = (
    ok (result true position_opened shadow_position_opened (some p) (some risk) (some event)),
    file,
  )

  -- From the opening of the position on.
  unfoldable pub open_sized : TradeArguments N → ShadowRiskResult N → File → Trade N
  unfolding opened
  open_sized a risk file =
      let p = open_position F (position_arguments a risk.normalized_volume) in
      if not p.valid
      then (ok (result false open_blocked virtual_position_invalid (some p) (some risk) none), file)
      else opened p risk (
          append_event L (codes "POSITION_OPENED") p.position_id a.broker_epoch
            (opened_payload p risk) file)

  unfoldable pub open_checked :
      TradeArguments N → ShadowRiskResult N → Result RoundingError (Checked N) → File → Trade N
  unfolding open_sized
  open_checked a risk (err e) file = (err (of_rounding e), file)
  open_checked a risk (ok (blocked why)) file =
      (ok (result false open_blocked why none (some risk) none), file)
  open_checked a risk (ok (tradable risk')) file = open_sized a risk' file

  -- From the result of the risk on.
  unfoldable pub open_with_risk :
      TradeArguments N → Result RoundingError (ShadowRiskResult N) → File → Trade N
  unfolding open_checked
  open_with_risk a (err e) file = (err (of_rounding e), file)
  open_with_risk a (ok risk) file =
      if not risk.valid
      then (ok (result false open_blocked (of_risk risk.reason) none (some risk) none), file)
      else open_checked a risk (check_override F R risk a.balance a.volume_override) file

  -- `ShadowTradeEngine.open_trade`, with `_validate_journal_path` first.
  unfoldable pub open_trade : Text → TradeArguments N → File → Trade N
  unfolding open_with_risk
  open_trade journal_path a file =
      if is_prohibited journal_path
      then (err shadow_true_oos_namespace_collision, file)
      else open_with_risk a (calculate_risk F T R (risk_arguments a)) file
