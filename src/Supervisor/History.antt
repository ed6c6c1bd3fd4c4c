-- ===== src/Supervisor/History.antt =====
-- What a session shows after its rounds: the counters of the telemetry as counts over them.
use mss_package.Common.{
  ℕ, suc, ◌+◌, Bool, true, not, ◌&&◌, ◌||◌, Option, none, some, List, [], ◌∷◌, length,
  if◌then◌else◌, is_some,
}
use mss_package.Common.Float.{Float}
use mss_package.Common.Int.{pos}
use mss_package.Common.Text.{Text}
use mss_package.Heartbeat.{
  runtime_heartbeat_initialized, runtime_heartbeat_healthy, runtime_heartbeat_stale,
}
use mss_package.Supervisor.{
  SupervisorReason, runtime_supervisor_healthy, mt5_not_connected, mt5_terminal_unavailable,
  mt5_account_unavailable, portfolio_recovery_invalid, of_heartbeat, reason_text,
  ShadowLiveRuntimeSupervisorDecision, gap_text,
}
use mss_package.Telemetry.{ShadowLiveRuntimeTelemetryState}

-- What a round has seen: its time, how long ago the round before was where that was too long, and
-- what was there.
pub record Round (N : Type 0) : Type 0 where
  pub now : N
  pub late : Option N
  pub mt5_connected : Bool
  pub terminal_available : Bool
  pub account_available : Bool
  pub portfolio_recovery_valid : Bool

module _ {N : Type 0} where
  abbrev pub seen_at : N → Option N → Bool → Bool → Bool → Bool → Round N
  seen_at now late m t a p = record {
    now = now;
    late = late;
    mt5_connected = m;
    terminal_available = t;
    account_available = a;
    portfolio_recovery_valid = p;
  }

  abbrev pub is_late : Round N → Bool
  is_late r = is_some r.late

  abbrev pub is_connected : Round N → Bool
  is_connected r = r.mt5_connected && r.terminal_available && r.account_available

  -- In time, but without the terminal.
  abbrev pub is_disconnected : Round N → Bool
  is_disconnected r = not (is_late r) && not (is_connected r)

  -- In time and connected, but without a recovered portfolio.
  abbrev pub is_unrecovered : Round N → Bool
  is_unrecovered r = not (is_late r) && is_connected r && not r.portfolio_recovery_valid

  abbrev pub is_blocked : Round N → Bool
  is_blocked r = is_late r || not (is_connected r) || not r.portfolio_recovery_valid

  -- How many rounds meet a test.
  abbrev pub count : (Round N → Bool) → List (Round N) → ℕ
  count test [] = 0
  count test (r ∷ rs) = if test r then count test rs + 1 else count test rs

  abbrev pub latest : List (Round N) → Option N
  latest [] = none
  latest (r ∷ rs) = some r.now

  -- The first thing that is missing.
  abbrev pub outcome : Round N → SupervisorReason
  outcome r =
      if is_late r
      then of_heartbeat runtime_heartbeat_stale
      else if not r.mt5_connected
      then mt5_not_connected
      else if not r.terminal_available
      then mt5_terminal_unavailable
      else if not r.account_available
      then mt5_account_unavailable
      else if not r.portfolio_recovery_valid
      then portfolio_recovery_invalid
      else runtime_supervisor_healthy

  -- The reason of the heartbeat of a round in time.
  abbrev pub beat_reason : List (Round N) → SupervisorReason
  beat_reason [] = of_heartbeat runtime_heartbeat_initialized
  beat_reason (_ ∷ _) = of_heartbeat runtime_heartbeat_healthy

  -- The reason that is kept of the last round: that of the heartbeat where nothing is missing.
  abbrev pub kept_reason : Round N → List (Round N) → SupervisorReason
  kept_reason r before = if is_blocked r then outcome r else beat_reason before

  abbrev pub last_reason : List (Round N) → Option Text
  last_reason [] = none
  last_reason (r ∷ rs) = some (reason_text (kept_reason r rs))

module _ {N : Type 0} (F : Float N) where
  -- How long ago the round before was, where that is beyond the limit.
  abbrev pub gap_of : N → N → List (Round N) → Option N
  gap_of limit now [] = none
  gap_of limit now (r ∷ rs) = if F.lt limit (F.sub now r.now) then some (F.sub now r.now) else none

module _ {N : Type 0} (F : Float N) (str_float : N → Text) where
  abbrev pub detail_of : Option N → Option Text
  detail_of none = none
  detail_of (some gap) = some (gap_text F str_float gap)

  abbrev pub last_detail : List (Round N) → Option Text
  last_detail [] = none
  last_detail (r ∷ rs) = detail_of r.late

  abbrev pub telemetry_of : N → List (Round N) → ShadowLiveRuntimeTelemetryState N
  telemetry_of started rs = record {
    session_started_monotonic = started;
    heartbeat_sequence = pos (length rs);
    heartbeat_count = pos (length rs);
    stale_heartbeat_count = pos (count is_late rs);
    global_safety_block_count = pos (count is_blocked rs);
    runtime_disconnect_count = pos (count is_disconnected rs);
    portfolio_recovery_failure_count = pos (count is_unrecovered rs);
    last_heartbeat_monotonic = latest rs;
    last_runtime_reason = last_reason rs;
    last_runtime_detail = last_detail rs;
  }

  -- The decision of a round after others.
  abbrev pub decision_of : N → Round N → List (Round N) → ShadowLiveRuntimeSupervisorDecision N
  decision_of started r before = record {
    valid = true;
    healthy = not (is_blocked r);
    hard_block = is_blocked r;
    reason = outcome r;
    detail = detail_of r.late;
    next_last_heartbeat_monotonic = r.now;
    next_heartbeat_sequence = pos (suc (length before));
    telemetry_state = telemetry_of started (r ∷ before);
  }
