-- ===== src/Supervisor.antt =====
-- src/mss/analysis/shadow_live_runtime_supervisor.py: one decision per round, from the heartbeat and
-- the state of the terminal, with the telemetry kept along.
pub mod History
mod Counters
mod Judging
mod Rounds
pub mod Session
mod Examples
use mss_package.Common.{Result, ok, err, ◌>>=◌}
use mss_package.Common.{
  Bool, true, false, not, Option, none, some, ◌++◌, if◌then◌else◌, Result, ok, err, ◌>>=◌,
}
use mss_package.Common.Float.{Float, nought}
use mss_package.Common.Int.{ℤ, pos}
use mss_package.Common.Text.{Text, codes}
use mss_package.Heartbeat.{
  ShadowLiveHeartbeatInput, ShadowLiveHeartbeatDecision, HeartbeatReason,
  runtime_heartbeat_initialized, runtime_heartbeat_healthy, runtime_heartbeat_stale,
  invalid_runtime_heartbeat_input, evaluate as evaluate_heartbeat,
}
use mss_package.Telemetry.{
  ValueError, ShadowLiveRuntimeTelemetryState, record_heartbeat, record_safety_block,
  record_disconnect, record_portfolio_recovery_failure,
}

pub record ShadowLiveRuntimeSupervisorInput (N : Type 0) : Type 0 where
  pub started_monotonic : N
  pub now_monotonic : N
  pub last_heartbeat_monotonic : Option N
  pub heartbeat_sequence : ℤ
  pub max_heartbeat_gap_seconds : N
  pub mt5_connected : Bool
  pub terminal_available : Bool
  pub account_available : Bool
  pub portfolio_recovery_valid : Bool

pub data SupervisorReason : Type 0 where
  runtime_supervisor_healthy mt5_not_connected mt5_terminal_unavailable : SupervisorReason
  mt5_account_unavailable portfolio_recovery_invalid : SupervisorReason
  invalid_runtime_supervisor_input : SupervisorReason
  -- The reason of the heartbeat, which is passed on.
  of_heartbeat : HeartbeatReason → SupervisorReason

pub record ShadowLiveRuntimeSupervisorDecision (N : Type 0) : Type 0 where
  pub valid : Bool
  pub healthy : Bool
  pub hard_block : Bool
  pub reason : SupervisorReason
  pub detail : Option Text
  pub next_last_heartbeat_monotonic : N
  pub next_heartbeat_sequence : ℤ
  pub telemetry_state : ShadowLiveRuntimeTelemetryState N

-- The texts of the reasons, which the telemetry keeps.
abbrev pub heartbeat_text : HeartbeatReason → Text
heartbeat_text runtime_heartbeat_initialized = codes "RUNTIME_HEARTBEAT_INITIALIZED"
heartbeat_text runtime_heartbeat_healthy = codes "RUNTIME_HEARTBEAT_HEALTHY"
heartbeat_text runtime_heartbeat_stale = codes "RUNTIME_HEARTBEAT_STALE"
heartbeat_text invalid_runtime_heartbeat_input = codes "INVALID_RUNTIME_HEARTBEAT_INPUT"

unfoldable pub reason_text : SupervisorReason → Text
reason_text runtime_supervisor_healthy = codes "RUNTIME_SUPERVISOR_HEALTHY"
reason_text mt5_not_connected = codes "MT5_NOT_CONNECTED"
reason_text mt5_terminal_unavailable = codes "MT5_TERMINAL_UNAVAILABLE"
reason_text mt5_account_unavailable = codes "MT5_ACCOUNT_UNAVAILABLE"
reason_text portfolio_recovery_invalid = codes "PORTFOLIO_RECOVERY_INVALID"
reason_text invalid_runtime_supervisor_input = codes "INVALID_RUNTIME_SUPERVISOR_INPUT"
reason_text (of_heartbeat h) = heartbeat_text h

module _ {N : Type 0} where
  abbrev pub heartbeat_input : ShadowLiveRuntimeSupervisorInput N → ShadowLiveHeartbeatInput N
  heartbeat_input s = record {
    started_monotonic = s.started_monotonic;
    now_monotonic = s.now_monotonic;
    last_heartbeat_monotonic = s.last_heartbeat_monotonic;
    heartbeat_sequence = s.heartbeat_sequence;
    max_heartbeat_gap_seconds = s.max_heartbeat_gap_seconds;
  }

  -- `_decision`, of a decision that is valid and blocks where it is not healthy.
  abbrev pub decision :
      Bool
      → SupervisorReason
      → Option Text
      → ShadowLiveHeartbeatDecision N
      → ShadowLiveRuntimeTelemetryState N
      → ShadowLiveRuntimeSupervisorDecision N
  decision healthy reason detail h t = record {
    valid = true;
    healthy = healthy;
    hard_block = not healthy;
    reason = reason;
    detail = detail;
    next_last_heartbeat_monotonic = h.next_last_heartbeat_monotonic;
    next_heartbeat_sequence = h.next_heartbeat_sequence;
    telemetry_state = t;
  }

-- `str` of a float is an argument, for the detail of a late heartbeat. An error is a
-- `ValueError` of the telemetry that `evaluate` lets through.
module _ {N : Type 0} (F : Float N) (str_float : N → Text) where
  abbrev pub gap_text : N → Text
  gap_text gap = codes "heartbeat_gap_seconds=" ++ str_float gap

  -- `_invalid`
  abbrev pub refused : ShadowLiveRuntimeTelemetryState N → ShadowLiveRuntimeSupervisorDecision N
  refused t = record {
    valid = false;
    healthy = false;
    hard_block = true;
    reason = invalid_runtime_supervisor_input;
    detail = none;
    next_last_heartbeat_monotonic = nought F;
    next_heartbeat_sequence = pos 0;
    telemetry_state = t;
  }

  -- The branch of a late heartbeat.
  unfoldable pub block_stale :
      ShadowLiveHeartbeatDecision N
      → ShadowLiveRuntimeTelemetryState N
      → Result ValueError (ShadowLiveRuntimeSupervisorDecision N)
  block_stale h t = do
    blocked ←
        record_safety_block F (reason_text (of_heartbeat h.reason))
          (some (gap_text h.heartbeat_gap_seconds)) t
    ok (decision false (of_heartbeat h.reason) (some (gap_text h.heartbeat_gap_seconds)) h blocked)

  -- The three branches of a missing connection, terminal or account.
  unfoldable pub block_disconnected :
      SupervisorReason
      → ShadowLiveHeartbeatDecision N
      → ShadowLiveRuntimeTelemetryState N
      → Result ValueError (ShadowLiveRuntimeSupervisorDecision N)
  block_disconnected why h t = do
    counted ← record_disconnect F (reason_text why) none t
    blocked ← record_safety_block F (reason_text why) none counted
    ok (decision false why none h blocked)

  -- The branch of a recovery that failed.
  unfoldable pub block_recovery :
      ShadowLiveHeartbeatDecision N
      → ShadowLiveRuntimeTelemetryState N
      → Result ValueError (ShadowLiveRuntimeSupervisorDecision N)
  block_recovery h t = do
    counted ← record_portfolio_recovery_failure F (reason_text portfolio_recovery_invalid) none t
    blocked ← record_safety_block F (reason_text portfolio_recovery_invalid) none counted
    ok (decision false portfolio_recovery_invalid none h blocked)

  -- After the heartbeat has been recorded.
  unfoldable pub judge_runtime :
      ShadowLiveRuntimeSupervisorInput N
      → ShadowLiveHeartbeatDecision N
      → ShadowLiveRuntimeTelemetryState N
      → Result ValueError (ShadowLiveRuntimeSupervisorDecision N)
  judge_runtime s h t =
      if h.hard_block
      then block_stale h t
      else if not s.mt5_connected
      then block_disconnected mt5_not_connected h t
      else if not s.terminal_available
      then block_disconnected mt5_terminal_unavailable h t
      else if not s.account_available
      then block_disconnected mt5_account_unavailable h t
      else if not s.portfolio_recovery_valid
      then block_recovery h t
      else ok (decision true runtime_supervisor_healthy none h t)

  -- The `try` around `record_heartbeat`.
  unfoldable pub record_and_judge :
      ShadowLiveRuntimeSupervisorInput N
      → ShadowLiveHeartbeatDecision N
      → ShadowLiveRuntimeTelemetryState N
      → Result ValueError (ShadowLiveRuntimeSupervisorDecision N)
  unfolding judge_runtime
  record_and_judge s h t =
      elim (record_heartbeat F s.now_monotonic h.next_heartbeat_sequence h.hard_block
        (reason_text (of_heartbeat h.reason)) none t) [
          | err _ ↦ ok (refused t)
          | ok recorded ↦ judge_runtime s h recorded
        ]

  -- `ShadowLiveRuntimeSupervisor.evaluate`
  unfoldable pub evaluate :
      ShadowLiveRuntimeSupervisorInput N
      → ShadowLiveRuntimeTelemetryState N
      → Result ValueError (ShadowLiveRuntimeSupervisorDecision N)
  unfolding record_and_judge
  evaluate s t =
      let h = evaluate_heartbeat F (heartbeat_input s) in
      if not h.valid then ok (refused t) else record_and_judge s h t
