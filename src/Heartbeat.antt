-- ===== src/Heartbeat.antt =====
-- src/mss/analysis/shadow_live_runtime_heartbeat.py: whether the runtime is still alive.
pub mod Health
pub mod Beats
mod Examples
use mss_package.Common.{Bool, true, false, not, ◌&&◌, ◌||◌, Option, none, some, if◌then◌else◌}
use mss_package.Common.Float.{Float, nought}
use mss_package.Common.Int.{ℤ, pos, ltb_ℤ, leb_ℤ, eqb_ℤ, ◌+ℤ◌}

pub record ShadowLiveHeartbeatInput (N : Type 0) : Type 0 where
  pub started_monotonic : N
  pub now_monotonic : N
  pub last_heartbeat_monotonic : Option N
  pub heartbeat_sequence : ℤ
  pub max_heartbeat_gap_seconds : N

pub data HeartbeatReason : Type 0 where
  runtime_heartbeat_initialized runtime_heartbeat_healthy : HeartbeatReason
  runtime_heartbeat_stale invalid_runtime_heartbeat_input : HeartbeatReason

pub record ShadowLiveHeartbeatDecision (N : Type 0) : Type 0 where
  pub valid : Bool
  pub healthy : Bool
  pub hard_block : Bool
  pub reason : HeartbeatReason
  pub heartbeat_sequence : ℤ
  pub uptime_seconds : N
  pub heartbeat_gap_seconds : N
  pub next_last_heartbeat_monotonic : N
  pub next_heartbeat_sequence : ℤ

module _ {N : Type 0} (F : Float N) where
  open F use {lt, le, sub, is_finite}

  -- `_invalid`
  abbrev pub invalid : ShadowLiveHeartbeatDecision N
  invalid = record {
    valid = false;
    healthy = false;
    hard_block = true;
    reason = invalid_runtime_heartbeat_input;
    heartbeat_sequence = pos 0;
    uptime_seconds = nought F;
    heartbeat_gap_seconds = nought F;
    next_last_heartbeat_monotonic = nought F;
    next_heartbeat_sequence = pos 0;
  }

  -- The decision on a heartbeat after a first one, by whether it came in time.
  abbrev pub beaten :
      ShadowLiveHeartbeatInput N → N → Bool → HeartbeatReason → ShadowLiveHeartbeatDecision N
  beaten h last in_time why = record {
    valid = true;
    healthy = in_time;
    hard_block = not in_time;
    reason = why;
    heartbeat_sequence = h.heartbeat_sequence;
    uptime_seconds = sub h.now_monotonic h.started_monotonic;
    heartbeat_gap_seconds = sub h.now_monotonic last;
    next_last_heartbeat_monotonic = h.now_monotonic;
    next_heartbeat_sequence = h.heartbeat_sequence +ℤ pos 1;
  }

  -- From the test for a heartbeat before this one.
  unfoldable pub judge_last : ShadowLiveHeartbeatInput N → Option N → ShadowLiveHeartbeatDecision N
  judge_last h none = if not (eqb_ℤ h.heartbeat_sequence (pos 0)) then invalid else record {
    valid = true;
    healthy = true;
    hard_block = false;
    reason = runtime_heartbeat_initialized;
    heartbeat_sequence = h.heartbeat_sequence;
    uptime_seconds = sub h.now_monotonic h.started_monotonic;
    heartbeat_gap_seconds = nought F;
    next_last_heartbeat_monotonic = h.now_monotonic;
    next_heartbeat_sequence = pos 1;
  }
  judge_last h (some last) =
      if not (is_finite last)
      then invalid
      else if lt last h.started_monotonic
          || lt h.now_monotonic last
          || leb_ℤ h.heartbeat_sequence (pos 0)
      then invalid
      else if lt h.max_heartbeat_gap_seconds (sub h.now_monotonic last)
      then beaten h last false runtime_heartbeat_stale
      else beaten h last true runtime_heartbeat_healthy

  -- `ShadowLiveRuntimeHeartbeat.evaluate`
  unfoldable pub evaluate : ShadowLiveHeartbeatInput N → ShadowLiveHeartbeatDecision N
  evaluate h =
      if not (
        is_finite h.started_monotonic
        && is_finite h.now_monotonic
        && is_finite h.max_heartbeat_gap_seconds)
      then invalid
      else if lt h.started_monotonic (nought F)
          || lt h.now_monotonic (nought F)
          || lt h.now_monotonic h.started_monotonic
          || le h.max_heartbeat_gap_seconds (nought F)
      then invalid
      else if ltb_ℤ h.heartbeat_sequence (pos 0)
      then invalid
      else judge_last h h.last_heartbeat_monotonic
