-- ===== src/ShadowTrade.antt =====
-- src/mss/analysis/shadow_trade_engine.py: the results and the events of a paper trade.
pub mod Override
pub mod Open
pub mod Update
pub mod Opening
pub mod Closing
pub mod ReadBack
pub mod Recovered
pub mod Examples
use mss_package.Common.{
  Bool, true, false, not, ◌&&◌, ◌||◌, Option, none, some, [], if◌then◌else◌, Result, ok, err,
}
use mss_package.Common.Float.{Float, nought}
use mss_package.Common.Int.{ℤ}
use mss_package.Common.Text.{Text, codes}
use mss_package.Journal.Append.{AppendError, append_event}
use mss_package.Journal.Chain.{File}
use mss_package.Journal.Json.{Json, string, integer, floating, Fields, end, field, Library}
use mss_package.RiskState.Position.{is_prohibited}
use mss_package.Sizing.{
  Terminal, Rounding, RoundingError, SizeReason, ShadowRiskResult, RiskArguments,
  calculate as calculate_risk,
}
use mss_package.Valuation.{ValuationReason, ShadowValuationResult, calculate as calculate_valuation}
use mss_package.VirtualPosition.Engine.{
  VirtualPosition, is_open, status_closed, Status, OpenArguments, open_position, exit_trigger,
  market_close_price, close_position,
}

pub data TradeAction : Type 0 where
  open_blocked position_opened update_blocked already_closed position_held : TradeAction
  exit_valuation_blocked exit_blocked position_closed : TradeAction

pub data TradeReason : Type 0 where
  -- The reason of the risk, of the valuation, or of the exit.
  of_risk : SizeReason → TradeReason
  of_valuation : ValuationReason → TradeReason
  of_trigger : Text → TradeReason
  invalid_volume_override volume_override_exceeds_risk_normalized_volume : TradeReason
  volume_override_outside_broker_limits invalid_broker_volume_step : TradeReason
  volume_override_not_on_broker_step virtual_position_invalid : TradeReason
  shadow_position_opened position_required position_invalid position_not_open : TradeReason
  no_exit_trigger virtual_close_failed : TradeReason

-- The exceptions that a caller can meet.
pub data TradeError : Type 0 where
  shadow_true_oos_namespace_collision : TradeError
  of_rounding : RoundingError → TradeError
  of_journal : AppendError → TradeError

pub record ShadowTradeEngineResult (N : Type 0) : Type 0 where
  pub valid : Bool
  pub action : TradeAction
  pub reason : TradeReason
  pub position : Option (VirtualPosition N)
  pub risk : Option (ShadowRiskResult N)
  pub journal_event : Option (Fields N)
  pub real_order_send_allowed : Bool
  pub order_send_called : Bool
  pub order_check_called : Bool
  pub true_oos_data_accessed : Bool
  pub true_oos_artifacts_modified : Bool

-- The arguments of `open_trade`, but for the path.
pub record TradeArguments (N : Type 0) : Type 0 where
  pub position_id : Text
  pub symbol : Text
  pub direction : Text
  pub balance : N
  pub risk_percent : N
  pub entry_price : N
  pub stop_loss : N
  pub take_profit : N
  pub broker_epoch : ℤ
  pub volume_override : Option N
  pub broker_position_ticket : ℤ
  pub broker_position_identifier : ℤ

-- What a call returns or raises, with the file after it.
abbrev pub Trade : Type 0 → Type 0
Trade N = Result TradeError (ShadowTradeEngineResult N) × File

abbrev pub is_closed : Status → Bool
is_closed status_closed = true
is_closed _ = false

module _ {N : Type 0} where
  -- The event that a call has written.
  abbrev pub event_of : Trade N → Option (Fields N)
  event_of (ok r, file) = r.journal_event
  event_of (err e, file) = none

  abbrev pub position_in : Trade N → Option (VirtualPosition N)
  position_in (ok r, file) = r.position
  position_in (err e, file) = none

  -- A result, with the defaults of its class.
  abbrev pub result :
      Bool
      → TradeAction
      → TradeReason
      → Option (VirtualPosition N)
      → Option (ShadowRiskResult N)
      → Option (Fields N)
      → ShadowTradeEngineResult N
  result valid action reason position risk event = record {
    valid = valid;
    action = action;
    reason = reason;
    position = position;
    risk = risk;
    journal_event = event;
    real_order_send_allowed = false;
    order_send_called = false;
    order_check_called = false;
    true_oos_data_accessed = false;
    true_oos_artifacts_modified = false;
  }

  abbrev pub risk_arguments : TradeArguments N → RiskArguments N
  risk_arguments a = record {
    symbol = a.symbol;
    direction = a.direction;
    balance = a.balance;
    risk_percent = a.risk_percent;
    entry_price = a.entry_price;
    stop_loss = a.stop_loss;
  }

  abbrev pub position_arguments : TradeArguments N → N → OpenArguments N
  position_arguments a volume = record {
    position_id = a.position_id;
    symbol = a.symbol;
    direction = a.direction;
    volume = volume;
    entry_price = a.entry_price;
    stop_loss = a.stop_loss;
    take_profit = a.take_profit;
    broker_epoch = a.broker_epoch;
    broker_position_ticket = a.broker_position_ticket;
    broker_position_identifier = a.broker_position_identifier;
  }

  -- The payload of an opening.
  unfoldable pub opened_payload : VirtualPosition N → ShadowRiskResult N → Fields N
  opened_payload p risk = field (codes "symbol") (string p.symbol) (
      field (codes "direction") (string p.direction) (
        field (codes "volume") (floating p.volume) (
          field (codes "entry_price") (floating p.entry_price) (
            field (codes "stop_loss") (floating p.stop_loss) (
              field (codes "take_profit") (floating p.take_profit) (
                field (codes "initial_risk_price") (floating p.initial_risk_price) (
                  field (codes "risk_percent") (floating risk.risk_percent) (
                    field (codes "risk_amount") (floating risk.risk_amount) (
                      field (codes "loss_per_one_lot") (floating risk.loss_per_one_lot) (
                        field (codes "raw_volume") (floating risk.raw_volume) (
                          field (codes "normalized_volume") (floating risk.normalized_volume) (
                            field (codes "broker_volume_min") (floating risk.volume_min) (
                              field (codes "broker_volume_max") (floating risk.volume_max) (
                                field (codes "broker_volume_step") (floating risk.volume_step) (
                                  field (codes "broker_position_ticket")
                                    (integer p.broker_position_ticket)
                                    (field (codes "broker_position_identifier")
                                      (integer p.broker_position_identifier) end))))))))))))))))

  -- The payload of a close.
  unfoldable pub closed_payload : VirtualPosition N → Fields N
  closed_payload p = field (codes "symbol") (string p.symbol) (
      field (codes "direction") (string p.direction) (
        field (codes "volume") (floating p.volume) (
          field (codes "entry_price") (floating p.entry_price) (
            field (codes "close_price") (floating p.close_price) (
              field (codes "stop_loss") (floating p.stop_loss) (
                field (codes "take_profit") (floating p.take_profit) (
                  field (codes "exit_reason") (string p.exit_reason) (
                    field (codes "pnl_account_currency") (floating p.pnl_account_currency) (
                      field (codes "r_multiple") (floating p.r_multiple) (
                        field (codes "valuation_method") (string (codes "MT5_ORDER_CALC_PROFIT"))
                          end))))))))))
