-- ===== src/Supervisor/Examples.antt =====
-- A session with a first round in time, and a second one that comes late.
use mss_package.Common.{◌≡◌, refl, true, false, none, some, [], ◌∷◌, ok}
use mss_package.Common.Fixed.{Fixed, fix, fixed}
use mss_package.Common.Int.{pos, ◌+ℤ◌}
use mss_package.Common.Text.{Text, codes, strip}
use mss_package.Heartbeat.{evaluate as evaluate_heartbeat, judge_last}
use mss_package.Heartbeat.Health.{IsClock}
use mss_package.Supervisor.{
  ShadowLiveRuntimeSupervisorDecision, evaluate, record_and_judge, judge_runtime, reason_text,
  block_disconnected, mt5_not_connected,
}
use mss_package.Supervisor.History.{Round, telemetry_of, decision_of}
use mss_package.Supervisor.Judging.{round}
use mss_package.Supervisor.Session.{Session, begin, supervise, input, next_round_decided}
use mss_package.Telemetry.{
  initialize, initial, record_heartbeat, is_state, is_now, is_reason, record_disconnect,
  record_safety_block,
}

abbrev some_text : Fixed → Text
some_text x = codes "x"

-- Started at second 1, with a limit of two seconds; the terminal is not connected at second 2.
abbrev first : Round Fixed
first = round fixed (fix 1000) some_text (fix 2000) (fix 2000) false true true true []

abbrev first_decision : ShadowLiveRuntimeSupervisorDecision Fixed
first_decision = decision_of fixed some_text (fix 1000) first []

first_decided :
    evaluate fixed some_text
      (input fixed (fix 1000) some_text (fix 2000) none (pos 0) (fix 2000) false true true true)
      (initial fixed (fix 1000))
    ≡ ok first_decision
unfolding evaluate record_and_judge judge_runtime reason_text block_disconnected evaluate_heartbeat
    judge_last record_heartbeat is_state is_now is_reason record_disconnect record_safety_block
    strip ◌+ℤ◌
first_decided = refl

blocked : first_decision.reason ≡ mt5_not_connected
blocked = refl

started-Session :
    Session fixed (fix 1000) some_text (fix 2000) none (pos 0) (initial fixed (fix 1000)) []
unfolding initialize
started-Session = begin refl

one_round :
    Session fixed
      (fix 1000)
      some_text
      (fix 2000)
      (some (fix 2000))
      (pos 1)
      (telemetry_of fixed some_text (fix 1000) (first ∷ []))
      (first ∷ [])
one_round =
    supervise (fix 2000) false true true true first_decision started-Session first_decided refl

clock : IsClock fixed (fix 1000) (fix 5000) (fix 2000)
clock = record {
  finite = (refl, refl, refl);
  started_positive = refl;
  now_positive = refl;
  forward = refl;
  limited = refl;
}

next_round_decided_example :
    evaluate fixed some_text
      (input fixed
        (fix 1000)
        some_text
        (fix 2000)
        (some (fix 2000))
        (pos 1)
        (fix 5000)
        true
        true
        true
        true)
      (telemetry_of fixed some_text (fix 1000) (first ∷ []))
    ≡ ok (
        decision_of fixed some_text
          (fix 1000)
          (round fixed (fix 1000) some_text (fix 2000) (fix 5000) true true true true (first ∷ []))
          (first ∷ []))
next_round_decided_example =
    next_round_decided fixed (fix 1000) some_text (fix 2000) (some (fix 2000)) (pos 1)
      (telemetry_of fixed some_text (fix 1000) (first ∷ [])) (first ∷ []) (fix 5000) true true true
      true one_round clock refl
