-- ===== src/Telemetry.antt =====
-- src/mss/analysis/shadow_live_runtime_telemetry.py: the counters of a session.
use mss_package.Common.{Result, ok, err}
use mss_package.Common.{
  Bool, true, false, not, ◌&&◌, Option, none, some, List, [], ◌∷◌, any, if◌then◌else◌,
}
use mss_package.Common.Float.{Float, nought}
use mss_package.Common.Int.{ℤ, pos, ltb_ℤ, leb_ℤ, ◌+ℤ◌}
use mss_package.Common.Text.{Text, codes, is_empty, strip}

-- What every operation raises on a state, a time or a reason that it refuses.
pub data ValueError : Type 0 where
  invalid_runtime_telemetry_state : ValueError

pub record ShadowLiveRuntimeTelemetryState (N : Type 0) : Type 0 where
  pub session_started_monotonic : N
  pub heartbeat_sequence : ℤ
  pub heartbeat_count : ℤ
  pub stale_heartbeat_count : ℤ
  pub global_safety_block_count : ℤ
  pub runtime_disconnect_count : ℤ
  pub portfolio_recovery_failure_count : ℤ
  pub last_heartbeat_monotonic : Option N
  pub last_runtime_reason : Option Text
  pub last_runtime_detail : Option Text

pub record ShadowLiveRuntimeTelemetrySnapshot (N : Type 0) : Type 0 where
  pub valid : Bool
  pub reason : Text
  pub uptime_seconds : N
  pub heartbeat_sequence : ℤ
  pub heartbeat_count : ℤ
  pub stale_heartbeat_count : ℤ
  pub global_safety_block_count : ℤ
  pub runtime_disconnect_count : ℤ
  pub portfolio_recovery_failure_count : ℤ
  pub last_runtime_reason : Option Text
  pub last_runtime_detail : Option Text

module _ {N : Type 0} where
  -- `numeric_counters`
  abbrev pub numeric_counters : ShadowLiveRuntimeTelemetryState N → List ℤ
  numeric_counters t =
      t.heartbeat_sequence ∷ t.heartbeat_count ∷ t.stale_heartbeat_count
      ∷ t.global_safety_block_count ∷ t.runtime_disconnect_count
      ∷ t.portfolio_recovery_failure_count ∷ []

-- Whether `_validate_reason` returns.
unfoldable pub is_reason : Text → Bool
is_reason reason = not (is_empty (strip reason))

module _ {N : Type 0} (F : Float N) where
  open F use {lt, sub, is_finite}

  -- The test of the start.
  abbrev pub is_start : N → Bool
  is_start started = is_finite started && not (lt started (nought F))

  abbrev pub is_last : N → Option N → Bool
  is_last started none = true
  is_last started (some last) = is_finite last && not (lt last started)

  -- Whether `_validate_state` returns.
  unfoldable pub is_state : ShadowLiveRuntimeTelemetryState N → Bool
  is_state t =
      not (any (λ v. ltb_ℤ v (pos 0)) (numeric_counters t))
      && is_start t.session_started_monotonic
      && is_last t.session_started_monotonic t.last_heartbeat_monotonic

  abbrev pub is_after : N → Option N → Bool
  is_after now none = true
  is_after now (some last) = not (lt now last)

  -- Whether `_validate_now` returns.
  unfoldable pub is_now : ShadowLiveRuntimeTelemetryState N → N → Bool
  is_now t now =
      is_finite now
      && not (lt now t.session_started_monotonic)
      && is_after now t.last_heartbeat_monotonic

  abbrev pub initial : N → ShadowLiveRuntimeTelemetryState N
  initial started = record {
    session_started_monotonic = started;
    heartbeat_sequence = pos 0;
    heartbeat_count = pos 0;
    stale_heartbeat_count = pos 0;
    global_safety_block_count = pos 0;
    runtime_disconnect_count = pos 0;
    portfolio_recovery_failure_count = pos 0;
    last_heartbeat_monotonic = none;
    last_runtime_reason = none;
    last_runtime_detail = none;
  }

  -- `ShadowLiveRuntimeTelemetry.initialize`
  unfoldable pub initialize : N → Result ValueError (ShadowLiveRuntimeTelemetryState N)
  initialize started =
      if is_start started then ok (initial started) else err invalid_runtime_telemetry_state

  -- The `replace` of `record_heartbeat`.
  abbrev pub with_heartbeat :
      N
      → ℤ
      → Bool
      → Text
      → Option Text
      → ShadowLiveRuntimeTelemetryState N
      → ShadowLiveRuntimeTelemetryState N
  with_heartbeat now sequence stale reason detail t = record t {
    heartbeat_sequence = sequence;
    heartbeat_count = t.heartbeat_count +ℤ pos 1;
    stale_heartbeat_count = t.stale_heartbeat_count +ℤ (if stale then pos 1 else pos 0);
    last_heartbeat_monotonic = some now;
    last_runtime_reason = some reason;
    last_runtime_detail = detail;
  }

  -- `ShadowLiveRuntimeTelemetry.record_heartbeat`
  unfoldable pub record_heartbeat :
      N
      → ℤ
      → Bool
      → Text
      → Option Text
      → ShadowLiveRuntimeTelemetryState N
      → Result ValueError (ShadowLiveRuntimeTelemetryState N)
  record_heartbeat now sequence stale reason detail t =
      if not (is_state t)
      then err invalid_runtime_telemetry_state
      else if not (is_now t now)
      then err invalid_runtime_telemetry_state
      else if leb_ℤ sequence (pos 0)
      then err invalid_runtime_telemetry_state
      else if leb_ℤ sequence t.heartbeat_sequence
      then err invalid_runtime_telemetry_state
      else if not (is_reason reason)
      then err invalid_runtime_telemetry_state
      else ok (with_heartbeat now sequence stale reason detail t)

  -- The tests that the three operations below begin with.
  abbrev pub checked :
      Text
      → ShadowLiveRuntimeTelemetryState N
      → ShadowLiveRuntimeTelemetryState N
      → Result ValueError (ShadowLiveRuntimeTelemetryState N)
  checked reason t next =
      if not (is_state t)
      then err invalid_runtime_telemetry_state
      else if not (is_reason reason)
      then err invalid_runtime_telemetry_state
      else ok next

  -- `ShadowLiveRuntimeTelemetry.record_safety_block`
  unfoldable pub record_safety_block :
      Text
      → Option Text
      → ShadowLiveRuntimeTelemetryState N
      → Result ValueError (ShadowLiveRuntimeTelemetryState N)
  record_safety_block reason detail t = checked reason t (record t {
    global_safety_block_count = t.global_safety_block_count +ℤ pos 1;
    last_runtime_reason = some reason;
    last_runtime_detail = detail;
  })

  -- `ShadowLiveRuntimeTelemetry.record_disconnect`
  unfoldable pub record_disconnect :
      Text
      → Option Text
      → ShadowLiveRuntimeTelemetryState N
      → Result ValueError (ShadowLiveRuntimeTelemetryState N)
  record_disconnect reason detail t = checked reason t (record t {
    runtime_disconnect_count = t.runtime_disconnect_count +ℤ pos 1;
    last_runtime_reason = some reason;
    last_runtime_detail = detail;
  })

  -- `ShadowLiveRuntimeTelemetry.record_portfolio_recovery_failure`
  unfoldable pub record_portfolio_recovery_failure :
      Text
      → Option Text
      → ShadowLiveRuntimeTelemetryState N
      → Result ValueError (ShadowLiveRuntimeTelemetryState N)
  record_portfolio_recovery_failure reason detail t = checked reason t (record t {
    portfolio_recovery_failure_count = t.portfolio_recovery_failure_count +ℤ pos 1;
    last_runtime_reason = some reason;
    last_runtime_detail = detail;
  })

  abbrev pub invalid_snapshot : ShadowLiveRuntimeTelemetrySnapshot N
  invalid_snapshot = record {
    valid = false;
    reason = codes "INVALID_RUNTIME_TELEMETRY_STATE";
    uptime_seconds = nought F;
    heartbeat_sequence = pos 0;
    heartbeat_count = pos 0;
    stale_heartbeat_count = pos 0;
    global_safety_block_count = pos 0;
    runtime_disconnect_count = pos 0;
    portfolio_recovery_failure_count = pos 0;
    last_runtime_reason = none;
    last_runtime_detail = none;
  }

  -- `ShadowLiveRuntimeTelemetry.snapshot`
  unfoldable pub snapshot :
      ShadowLiveRuntimeTelemetryState N → N → ShadowLiveRuntimeTelemetrySnapshot N
  snapshot t now = if not (is_state t && is_now t now) then invalid_snapshot else record {
    valid = true;
    reason = codes "RUNTIME_TELEMETRY_OK";
    uptime_seconds = sub now t.session_started_monotonic;
    heartbeat_sequence = t.heartbeat_sequence;
    heartbeat_count = t.heartbeat_count;
    stale_heartbeat_count = t.stale_heartbeat_count;
    global_safety_block_count = t.global_safety_block_count;
    runtime_disconnect_count = t.runtime_disconnect_count;
    portfolio_recovery_failure_count = t.portfolio_recovery_failure_count;
    last_runtime_reason = t.last_runtime_reason;
    last_runtime_detail = t.last_runtime_detail;
  }
