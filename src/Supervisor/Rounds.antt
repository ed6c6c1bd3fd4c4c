-- ===== src/Supervisor/Rounds.antt =====
-- One round of the supervisor, against the history of the session.
use mss_package.Supervisor.{refused}
use mss_package.Supervisor.History.{seen_at}
use mss_package.Heartbeat.Beats.{IsForward}
use mss_package.Common.Int.{leb_ℤ}
use mss_package.Supervisor.History.{gap_of}
use mss_package.Common.{
  suc, ◌≡◌, refl, ◌∙◌, ap, Bool, true, false, not, Option, none, some, List, [], ◌∷◌, arith, length,
  ok, if◌then◌else◌,
}
use mss_package.Common.Float.{Float}
use mss_package.Common.Int.{pos, ◌+ℤ◌}
use mss_package.Common.Text.{Text}
use mss_package.Heartbeat.{
  ShadowLiveHeartbeatDecision, beaten, judge_last, runtime_heartbeat_initialized,
  runtime_heartbeat_healthy, runtime_heartbeat_stale, evaluate as evaluate_heartbeat,
}
use mss_package.Heartbeat.Health.{IsClock, IsState, same_judgement}
use mss_package.Supervisor.{
  ShadowLiveRuntimeSupervisorInput, SupervisorReason, of_heartbeat, reason_text, heartbeat_input,
  judge_runtime, record_and_judge, evaluate,
}
use mss_package.Supervisor.History.{Round, latest, telemetry_of, decision_of}
use mss_package.Telemetry.{
  ShadowLiveRuntimeTelemetryState, is_now, is_start, is_last, record_heartbeat,
}
use mss_package.Supervisor.Counters.{pos_suc}
use mss_package.Supervisor.Judging.{
  round_input, round, judge_in_time, judge_late, record_heartbeat-telemetry_of,
}

module _ {N : Type 0} (F : Float N) (str_float : N → Text) (s : ShadowLiveRuntimeSupervisorInput N)
    (t : ShadowLiveRuntimeTelemetryState N) where
  recorded_steps :
      (h : ShadowLiveHeartbeatDecision N) (recorded : ShadowLiveRuntimeTelemetryState N)
      → record_heartbeat F s.now_monotonic h.next_heartbeat_sequence h.hard_block
          (reason_text (of_heartbeat h.reason))
          none
          t
        ≡ ok recorded
      → record_and_judge F str_float s h t ≡ judge_runtime F str_float s h recorded
  unfolding record_and_judge
  recorded_steps h recorded r = rw (record_and_judge, r) refl

  -- A round whose heartbeat is known, and accepted by the telemetry.
  evaluate_steps :
      (h : ShadowLiveHeartbeatDecision N) (recorded : ShadowLiveRuntimeTelemetryState N)
      → evaluate_heartbeat F (heartbeat_input s) ≡ h
      → h.valid ≡ true
      → record_heartbeat F s.now_monotonic h.next_heartbeat_sequence h.hard_block
          (reason_text (of_heartbeat h.reason))
          none
          t
        ≡ ok recorded
      → evaluate F str_float s t ≡ judge_runtime F str_float s h recorded
  unfolding evaluate
  evaluate_steps h recorded same v r = rw same (
      ap (λ b. if not b then ok (refused F str_float t) else record_and_judge F str_float s h t) v
      ∙ recorded_steps h recorded r)

module _ {N : Type 0} (F : Float N) (started : N) where
  open F use {lt, is_finite}

  module _ (str_float : N → Text) (limit : N) where
    module _ (now : N) (clock : IsClock F started now limit) where
      started_well : is_start F started ≡ true
      started_well = rw (clock.finite.0, clock.started_positive) refl

      pub now_well : is_last F started (some now) ≡ true
      now_well = rw (clock.finite.1, clock.forward) refl

      telemetry_of-is_now :
          (before : List (Round N))
          → IsForward F started limit (latest before) now
          → is_now F (telemetry_of F str_float started before) now ≡ true
      unfolding is_now
      telemetry_of-is_now [] forward = rw (clock.finite.1, clock.forward) refl
      telemetry_of-is_now (r ∷ before) forward = rw (clock.finite.1, clock.forward, forward) refl

      latest-IsState :
          (before : List (Round N))
          → is_last F started (latest before) ≡ true
          → IsForward F started limit (latest before) now
          → IsState F started now (latest before) (pos (length before))
      latest-IsState [] past forward = refl
      latest-IsState (r ∷ before) past forward =
          (ground (arith, past), ground (arith, past), forward, omega arith)

      numbered :
          (before : List (Round N)) (stale : Bool) (why : SupervisorReason)
          → record_heartbeat F now
              (pos (length before) +ℤ pos 1)
              stale
              (reason_text why)
              none
              (telemetry_of F str_float started before)
            ≡ record_heartbeat F now
                (pos (suc (length before)))
                stale
                (reason_text why)
                none
                (telemetry_of F str_float started before)
      numbered before stale why =
          ap
            (λ n.
              record_heartbeat F now n stale (reason_text why) none
                (telemetry_of F str_float started before))
            (pos_suc (length before))

      past_finite :
          (l : N)
          → is_last F started (some l) ≡ true
          → (is_finite l ≡ true) × (lt l started ≡ false)
      past_finite l past = (ground (arith, past), ground (arith, past))

      judge_last-beaten :
          (m t a p b : Bool) (late : Option N) (r : Round N) (before : List (Round N))
          → is_last F started (some r.now) ≡ true
          → IsForward F started limit (some r.now) now
          → F.lt limit (F.sub now r.now) ≡ b
          → judge_last F
              (heartbeat_input
                (round_input F started str_float limit (seen_at now late m t a p) (r ∷ before)))
              (some r.now)
            ≡ beaten F
                (heartbeat_input
                  (round_input F started str_float limit (seen_at now late m t a p) (r ∷ before)))
                r.now
                (not b)
                (if b then runtime_heartbeat_stale else runtime_heartbeat_healthy)
      unfolding judge_last
      judge_last-beaten m t a p true late r before past forward e =
          let (finite, later) = past_finite r.now past in
          let positive : leb_ℤ (pos (length (r ∷ before))) (pos 0) ≡ false = ground arith in
          rw (finite, later, forward, positive, e) refl
      judge_last-beaten m t a p false late r before past forward e =
          let (finite, later) = past_finite r.now past in
          let positive : leb_ℤ (pos (length (r ∷ before))) (pos 0) ≡ false = ground arith in
          rw (finite, later, forward, positive, e) refl

      evaluate_seen :
          (late : Option N) (m t a p : Bool) (before : List (Round N))
          → gap_of F limit now before ≡ late
          → is_last F started (latest before) ≡ true
          → IsForward F started limit (latest before) now
          → evaluate F str_float
              (round_input F started str_float limit (seen_at now late m t a p) before)
              (telemetry_of F str_float started before)
            ≡ ok (decision_of F str_float started (seen_at now late m t a p) before)
      unfolding judge_last
      evaluate_seen none m t a p [] gap past forward =
          let s = round_input F started str_float limit (seen_at now none m t a p) [] in
          let h = judge_last F (heartbeat_input s) none in
          evaluate_steps F str_float s (telemetry_of F str_float started []) h _
            (same_judgement F (heartbeat_input s) (clock, latest-IsState [] past forward)) refl
            (record_heartbeat-telemetry_of F started str_float limit now [] started_well false
              (of_heartbeat runtime_heartbeat_initialized) past (telemetry_of-is_now [] forward))
          ∙ judge_in_time F started str_float limit now [] h started_well now_well m t a p refl refl
              refl
      evaluate_seen (some g) m t a p [] gap past forward = absurd (cc gap)
      evaluate_seen none m t a p (r ∷ before) gap past forward =
          let s = round_input F started str_float limit (seen_at now none m t a p) (r ∷ before) in
          let h = beaten F (heartbeat_input s) r.now true runtime_heartbeat_healthy in
          let e : F.lt limit (F.sub now r.now) ≡ false = ground (arith, gap) in
          evaluate_steps F str_float s (telemetry_of F str_float started (r ∷ before)) h _
            (same_judgement F (heartbeat_input s) (clock, latest-IsState (r ∷ before) past forward)
              ∙ judge_last-beaten m t a p false none r before past forward e)
            refl
            (numbered (r ∷ before) false (of_heartbeat runtime_heartbeat_healthy)
              ∙ record_heartbeat-telemetry_of F started str_float limit now (r ∷ before)
                  started_well false (of_heartbeat runtime_heartbeat_healthy) past
                  (telemetry_of-is_now (r ∷ before) forward))
          ∙ judge_in_time F started str_float limit now (r ∷ before) h started_well now_well m t a p
              refl refl (pos_suc (length (r ∷ before)))
      evaluate_seen (some g) m t a p (r ∷ before) gap past forward =
          let s =
            round_input F started str_float limit (seen_at now (some g) m t a p) (r ∷ before) in
          let h = beaten F (heartbeat_input s) r.now false runtime_heartbeat_stale in
          let e : F.lt limit (F.sub now r.now) ≡ true = ground (arith, gap) in
          let g_is : F.sub now r.now ≡ g = ground (arith, gap, e) in
          evaluate_steps F str_float s (telemetry_of F str_float started (r ∷ before)) h _
            (same_judgement F (heartbeat_input s) (clock, latest-IsState (r ∷ before) past forward)
              ∙ judge_last-beaten m t a p true (some g) r before past forward e)
            refl
            (numbered (r ∷ before) true (of_heartbeat runtime_heartbeat_stale)
              ∙ record_heartbeat-telemetry_of F started str_float limit now (r ∷ before)
                  started_well true (of_heartbeat runtime_heartbeat_stale) past
                  (telemetry_of-is_now (r ∷ before) forward))
          ∙ judge_late F started str_float limit now (r ∷ before) h started_well now_well m t a p g
              refl refl g_is refl (pos_suc (length (r ∷ before)))

      pub evaluate-round :
          (m t a p : Bool) (before : List (Round N))
          → is_last F started (latest before) ≡ true
          → IsForward F started limit (latest before) now
          → evaluate F str_float
              (round_input F started str_float limit
                (round F started str_float limit now m t a p before)
                before)
              (telemetry_of F str_float started before)
            ≡ ok (
                decision_of F str_float started
                  (round F started str_float limit now m t a p before)
                  before)
      evaluate-round m t a p before past forward =
          evaluate_seen (gap_of F limit now before) m t a p before refl past forward
