-- ===== src/Supervisor/Judging.antt =====
-- The branches of the supervisor after a heartbeat, against the history of the session.
use mss_package.Supervisor.History.{seen_at}
use mss_package.Common.Int.{leb_ℤ}
use mss_package.Supervisor.History.{last_reason, last_detail, gap_of}
use mss_package.Supervisor.History.{beat_reason}
use mss_package.Supervisor.History.{is_blocked, is_disconnected, is_unrecovered}
use mss_package.Common.{
  suc, ◌+◌, ◌≡◌, refl, Bool, true, false, none, some, List, arith, length, ok, if◌then◌else◌,
}
use mss_package.Common.Float.{Float}
use mss_package.Common.Int.{pos}
use mss_package.Common.Text.{Text}
use mss_package.Heartbeat.{ShadowLiveHeartbeatDecision, runtime_heartbeat_stale}
use mss_package.Supervisor.{
  ShadowLiveRuntimeSupervisorInput, SupervisorReason, mt5_not_connected, mt5_terminal_unavailable,
  mt5_account_unavailable, portfolio_recovery_invalid, of_heartbeat, reason_text, judge_runtime,
  block_stale, block_disconnected, block_recovery,
}
use mss_package.Supervisor.History.{Round, latest, count, is_late, telemetry_of, decision_of}
use mss_package.Telemetry.{
  ShadowLiveRuntimeTelemetryState, is_now, is_start, is_last, record_heartbeat,
}
use mss_package.Supervisor.Counters.{
  pos_suc, stale_added, reason_text-is_reason, state_at, state_at-is_state,
  record_safety_block-state_at, record_disconnect-state_at, record_failure-state_at,
}

module _ {N : Type 0} (F : Float N) (started : N) where
  open F use {lt, is_finite}

  module _ (str_float : N → Text) (limit : N) where
    -- The input of a round after others.
    abbrev pub round_input : Round N → List (Round N) → ShadowLiveRuntimeSupervisorInput N
    round_input r before = record {
      started_monotonic = started;
      now_monotonic = r.now;
      last_heartbeat_monotonic = latest before;
      heartbeat_sequence = pos (length before);
      max_heartbeat_gap_seconds = limit;
      mt5_connected = r.mt5_connected;
      terminal_available = r.terminal_available;
      account_available = r.account_available;
      portfolio_recovery_valid = r.portfolio_recovery_valid;
    }

    module _ (now : N) (before : List (Round N)) where
      -- The state after the record of a heartbeat.
      abbrev pub after_beat : Bool → SupervisorReason → ShadowLiveRuntimeTelemetryState N
      after_beat stale why =
          state_at F started (some now) (suc (length before)) (suc (length before))
            (if stale then count is_late before + 1 else count is_late before)
            (count is_blocked before) (count is_disconnected before) (count is_unrecovered before)
            (some (reason_text why)) none

    module _ (now : N) (before : List (Round N)) (h : ShadowLiveHeartbeatDecision N)
        (s : is_start F started ≡ true) (l : is_last F started (some now) ≡ true) where
      pub judge_in_time :
          (m t a p : Bool)
          → h.hard_block ≡ false
          → h.next_last_heartbeat_monotonic ≡ now
          → h.next_heartbeat_sequence ≡ pos (suc (length before))
          → judge_runtime F str_float
              (round_input (seen_at now none m t a p) before)
              h
              (after_beat now before false (beat_reason before))
            ≡ ok (decision_of F str_float started (seen_at now none m t a p) before)
      unfolding judge_runtime block_disconnected block_recovery
      judge_in_time false t a p b x y =
          rw
            (
              b,
              x,
              y,
              record_disconnect-state_at F started (some now) s l mt5_not_connected,
              record_safety_block-state_at F started (some now) s l mt5_not_connected,
            )
            refl
      judge_in_time true false a p b x y =
          rw
            (
              b,
              x,
              y,
              record_disconnect-state_at F started (some now) s l mt5_terminal_unavailable,
              record_safety_block-state_at F started (some now) s l mt5_terminal_unavailable,
            )
            refl
      judge_in_time true true false p b x y =
          rw
            (
              b,
              x,
              y,
              record_disconnect-state_at F started (some now) s l mt5_account_unavailable,
              record_safety_block-state_at F started (some now) s l mt5_account_unavailable,
            )
            refl
      judge_in_time true true true false b x y =
          rw
            (
              b,
              x,
              y,
              record_failure-state_at F started (some now) s l portfolio_recovery_invalid,
              record_safety_block-state_at F started (some now) s l portfolio_recovery_invalid,
            )
            refl
      judge_in_time true true true true b x y = rw (b, x, y) refl

      pub judge_late :
          (m t a p : Bool) (gap : N)
          → h.hard_block ≡ true
          → h.reason ≡ runtime_heartbeat_stale
          → h.heartbeat_gap_seconds ≡ gap
          → h.next_last_heartbeat_monotonic ≡ now
          → h.next_heartbeat_sequence ≡ pos (suc (length before))
          → judge_runtime F str_float
              (round_input (seen_at now (some gap) m t a p) before)
              h
              (after_beat now before true (of_heartbeat runtime_heartbeat_stale))
            ≡ ok (decision_of F str_float started (seen_at now (some gap) m t a p) before)
      unfolding judge_runtime block_stale
      judge_late m t a p gap b r g x y =
          rw
            (
              b,
              r,
              g,
              x,
              y,
              record_safety_block-state_at F started (some now) s l
                  (of_heartbeat runtime_heartbeat_stale),
            )
            refl

    module _ (now : N) (before : List (Round N)) (s : is_start F started ≡ true) where
      pub record_heartbeat-telemetry_of :
          (stale : Bool) (why : SupervisorReason)
          → is_last F started (latest before) ≡ true
          → is_now F (telemetry_of F str_float started before) now ≡ true
          → record_heartbeat F now
              (pos (suc (length before)))
              stale
              (reason_text why)
              none
              (telemetry_of F str_float started before)
            ≡ ok (after_beat now before stale why)
      unfolding record_heartbeat
      record_heartbeat-telemetry_of stale why past at_now =
          let state =
            state_at-is_state F started (latest before) (length before) (length before)
              (count is_late before) (count is_blocked before) (count is_disconnected before)
              (count is_unrecovered before) (last_reason before) (last_detail F str_float before) s
              past in
          let positive : leb_ℤ (pos (suc (length before))) (pos 0) ≡ false = ground arith in
          let more : leb_ℤ (pos (suc (length before))) (pos (length before)) ≡ false =
            ground arith in
          rw
            (
              state,
              at_now,
              positive,
              more,
              reason_text-is_reason why,
              pos_suc (length before),
              stale_added stale (count is_late before),
            )
            refl

    -- A round with what it has seen.
    abbrev pub round : N → Bool → Bool → Bool → Bool → List (Round N) → Round N
    round now m t a p before = seen_at now (gap_of F limit now before) m t a p
