-- ===== src/ShadowTrade/Update.antt =====
-- `update_trade` of src/mss/analysis/shadow_trade_engine.py.
use mss_package.Common.{true, false, not, Option, none, some, if◌then◌else◌, Result, ok, err}
use mss_package.Common.Float.{Float}
use mss_package.Common.Int.{ℤ}
use mss_package.Common.Text.{Text, codes}
use mss_package.Journal.Append.{AppendError, append_event}
use mss_package.Journal.Chain.{File}
use mss_package.Journal.Json.{Fields, Library}
use mss_package.RiskState.Position.{is_prohibited}
use mss_package.Sizing.{Terminal}
use mss_package.Valuation.{ShadowValuationResult, calculate as calculate_valuation}
use mss_package.VirtualPosition.Engine.{
  VirtualPosition, is_open, exit_trigger, market_close_price, close_position,
}
use mss_package.ShadowTrade.{
  update_blocked, already_closed, position_held, exit_valuation_blocked, exit_blocked,
  position_closed, of_valuation, of_trigger, position_required, position_invalid, position_not_open,
  no_exit_trigger, virtual_close_failed, shadow_true_oos_namespace_collision, of_journal, Trade,
  is_closed, result, closed_payload,
}

module _ {N : Type 0} (L : Library N) (F : Float N) (T : Terminal N) where
  -- The result of a close, from that of `append_event`.
  unfoldable pub closed : VirtualPosition N → Text → Result AppendError (Fields N) × File → Trade N
  closed p trigger (err e, file) = (err (of_journal e), file)
  closed p trigger (ok event, file) =
      (ok (result true position_closed (of_trigger trigger) (some p) none (some event)), file)

  -- From the close of the position on.
  unfoldable pub close_valued : VirtualPosition N → N → ℤ → Text → N → File → Trade N
  unfolding closed
  close_valued p close_price broker_epoch trigger pnl file =
      let q = close_position F p close_price broker_epoch trigger pnl in
      if not (is_closed q.status)
      then (ok (result false exit_blocked virtual_close_failed (some p) none none), file)
      else closed q trigger (
          append_event L (codes "POSITION_CLOSED") q.position_id broker_epoch (closed_payload q)
            file)

  -- From the valuation on.
  unfoldable pub close_with :
      VirtualPosition N → N → ℤ → Text → ShadowValuationResult N → File → Trade N
  unfolding close_valued
  close_with p close_price broker_epoch trigger valuation file =
      if not valuation.valid
      then (
        ok (result false exit_valuation_blocked (of_valuation valuation.reason) (some p) none none),
        file,
      )
      else close_valued p close_price broker_epoch trigger valuation.pnl_account_currency file

  -- From the trigger on.
  unfoldable pub update_triggered : VirtualPosition N → N → N → ℤ → Option Text → File → Trade N
  unfolding close_with
  update_triggered p bid ask broker_epoch none file =
      (ok (result true position_held no_exit_trigger (some p) none none), file)
  update_triggered p bid ask broker_epoch (some trigger) file =
      let close_price = market_close_price F p.direction bid ask in
      close_with p close_price broker_epoch trigger
        (calculate_valuation F T (record {
          symbol = p.symbol;
          direction = p.direction;
          volume = p.volume;
          entry_price = p.entry_price;
          close_price = close_price;
        }))
        file

  -- From the test for a position on.
  unfoldable pub update_position : Option (VirtualPosition N) → N → N → ℤ → File → Trade N
  unfolding update_triggered
  update_position none bid ask broker_epoch file =
      (ok (result false update_blocked position_required none none none), file)
  update_position (some p) bid ask broker_epoch file =
      if not p.valid
      then (ok (result false update_blocked position_invalid (some p) none none), file)
      else if not (is_open p.status)
      then (ok (result true already_closed position_not_open (some p) none none), file)
      else update_triggered p bid ask broker_epoch (exit_trigger F p bid ask) file

  -- `ShadowTradeEngine.update_trade`
  unfoldable pub update_trade : Text → Option (VirtualPosition N) → N → N → ℤ → File → Trade N
  unfolding update_position
  update_trade journal_path position bid ask broker_epoch file =
      if is_prohibited journal_path
      then (err shadow_true_oos_namespace_collision, file)
      else update_position position bid ask broker_epoch file
