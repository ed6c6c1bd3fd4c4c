-- ===== src/Supervisor/Counters.antt =====
-- The operations of the telemetry on a state whose counters are natural numbers.
use mss_package.Common.{
  ℕ, suc, ◌+◌, ◌≡◌, refl, ◌∙◌, ap, Bool, true, false, Option, some, arith, ok, if◌then◌else◌,
}
use mss_package.Common.Float.{Float}
use mss_package.Common.Int.{pos, ◌+ℤ◌, +ℤ_parts, eq_of_parts}
use mss_package.Common.Text.{Text, strip}
use mss_package.Heartbeat.{
  runtime_heartbeat_initialized, runtime_heartbeat_healthy, runtime_heartbeat_stale,
  invalid_runtime_heartbeat_input,
}
use mss_package.Supervisor.{
  SupervisorReason, runtime_supervisor_healthy, mt5_not_connected, mt5_terminal_unavailable,
  mt5_account_unavailable, portfolio_recovery_invalid, invalid_runtime_supervisor_input,
  of_heartbeat, reason_text,
}
use mss_package.Telemetry.{
  ShadowLiveRuntimeTelemetryState, is_state, is_reason, is_start, is_last, record_safety_block,
  record_disconnect, record_portfolio_recovery_failure,
}

pub pos-+ℤ : (a b : ℕ) → pos a +ℤ pos b ≡ pos (a + b)
pos-+ℤ a b = eq_of_parts (pos a +ℤ pos b) (pos (a + b)) (omega (arith, +ℤ_parts (pos a) (pos b)))

pub pos_suc : (n : ℕ) → pos n +ℤ pos 1 ≡ pos (suc n)
pos_suc n = pos-+ℤ n 1 ∙ ap pos (omega arith)

pub stale_added :
    (stale : Bool) (n : ℕ)
    → pos n +ℤ (if stale then pos 1 else pos 0) ≡ pos (if stale then n + 1 else n)
stale_added true n = pos-+ℤ n 1
stale_added false n = pos-+ℤ n 0 ∙ ap pos (omega arith)

pub reason_text-is_reason : (why : SupervisorReason) → is_reason (reason_text why) ≡ true
unfolding is_reason reason_text strip
reason_text-is_reason runtime_supervisor_healthy = refl
reason_text-is_reason mt5_not_connected = refl
reason_text-is_reason mt5_terminal_unavailable = refl
reason_text-is_reason mt5_account_unavailable = refl
reason_text-is_reason portfolio_recovery_invalid = refl
reason_text-is_reason invalid_runtime_supervisor_input = refl
reason_text-is_reason (of_heartbeat runtime_heartbeat_initialized) = refl
reason_text-is_reason (of_heartbeat runtime_heartbeat_healthy) = refl
reason_text-is_reason (of_heartbeat runtime_heartbeat_stale) = refl
reason_text-is_reason (of_heartbeat invalid_runtime_heartbeat_input) = refl

module _ {N : Type 0} (F : Float N) (started : N) where
  open F use {lt, is_finite}

  -- A state whose counters are natural numbers.
  abbrev pub state_at :
      Option N
      → ℕ
      → ℕ
      → ℕ
      → ℕ
      → ℕ
      → ℕ
      → Option Text
      → Option Text
      → ShadowLiveRuntimeTelemetryState N
  state_at last n k stale blocks disconnects failures reason detail = record {
    session_started_monotonic = started;
    heartbeat_sequence = pos n;
    heartbeat_count = pos k;
    stale_heartbeat_count = pos stale;
    global_safety_block_count = pos blocks;
    runtime_disconnect_count = pos disconnects;
    portfolio_recovery_failure_count = pos failures;
    last_heartbeat_monotonic = last;
    last_runtime_reason = reason;
    last_runtime_detail = detail;
  }

  pub state_at-is_state :
      (last : Option N) (n k stale blocks disconnects failures : ℕ) (reason detail : Option Text)
      → is_start F started ≡ true
      → is_last F started last ≡ true
      → is_state F (state_at last n k stale blocks disconnects failures reason detail) ≡ true
  unfolding is_state
  state_at-is_state last n k stale blocks disconnects failures reason detail s l =
      rw l (ground arith)

  module _ (last : Option N) (s : is_start F started ≡ true) (l : is_last F started last ≡ true)
      (why : SupervisorReason) where
    pub record_safety_block-state_at :
        (n k stale blocks disconnects failures : ℕ) (reason detail detail' : Option Text)
        → record_safety_block F
            (reason_text why)
            detail'
            (state_at last n k stale blocks disconnects failures reason detail)
          ≡ ok (
              state_at last n k stale
                (blocks + 1)
                disconnects
                failures
                (some (reason_text why))
                detail')
    unfolding record_safety_block
    record_safety_block-state_at n k stale blocks disconnects failures reason detail detail' =
        rw
          (
            state_at-is_state last n k stale blocks disconnects failures reason detail s l,
            reason_text-is_reason why,
            pos-+ℤ blocks 1,
          )
          refl

    pub record_disconnect-state_at :
        (n k stale blocks disconnects failures : ℕ) (reason detail detail' : Option Text)
        → record_disconnect F
            (reason_text why)
            detail'
            (state_at last n k stale blocks disconnects failures reason detail)
          ≡ ok (
              state_at last n k stale blocks
                (disconnects + 1)
                failures
                (some (reason_text why))
                detail')
    unfolding record_disconnect
    record_disconnect-state_at n k stale blocks disconnects failures reason detail detail' =
        rw
          (
            state_at-is_state last n k stale blocks disconnects failures reason detail s l,
            reason_text-is_reason why,
            pos-+ℤ disconnects 1,
          )
          refl

    pub record_failure-state_at :
        (n k stale blocks disconnects failures : ℕ) (reason detail detail' : Option Text)
        → record_portfolio_recovery_failure F
            (reason_text why)
            detail'
            (state_at last n k stale blocks disconnects failures reason detail)
          ≡ ok (
              state_at last n k stale blocks disconnects
                (failures + 1)
                (some (reason_text why))
                detail')
    unfolding record_portfolio_recovery_failure
    record_failure-state_at n k stale blocks disconnects failures reason detail detail' =
        rw
          (
            state_at-is_state last n k stale blocks disconnects failures reason detail s l,
            reason_text-is_reason why,
            pos-+ℤ failures 1,
          )
          refl
