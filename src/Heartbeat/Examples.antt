-- ===== src/Heartbeat/Examples.antt =====
-- A first heartbeat, and a second one after three seconds.
use mss_package.Common.{◌≡◌, refl, true, none, some, Option}
use mss_package.Common.Fixed.{Fixed, fix, fixed, fixed_sub}
use mss_package.Common.Int.{ℤ, pos}
use mss_package.Heartbeat.{ShadowLiveHeartbeatInput, judge_last, evaluate, runtime_heartbeat_stale}
use mss_package.Heartbeat.Beats.{input, Beats, start, beat, next_beat_accepted}
use mss_package.Heartbeat.Health.{IsClock, IsJudged, evaluate-IsJudged}

-- Started at second 1, with a limit of two seconds.
abbrev at : Option Fixed → ℤ → Fixed → ShadowLiveHeartbeatInput Fixed
at = input fixed (fix 1000) (fix 2000)

late : (evaluate fixed (at (some (fix 2000)) (pos 1) (fix 5000))).reason ≡ runtime_heartbeat_stale
unfolding evaluate judge_last fixed_sub
late = refl

first_beat : (evaluate fixed (at none (pos 0) (fix 2000))).valid ≡ true
unfolding evaluate judge_last fixed_sub
first_beat = refl

evaluate-IsJudged_example :
    IsJudged fixed
      (at (some (fix 2000)) (pos 1) (fix 5000))
      (evaluate fixed (at (some (fix 2000)) (pos 1) (fix 5000)))
evaluate-IsJudged_example = evaluate-IsJudged fixed (at (some (fix 2000)) (pos 1) (fix 5000))

one_beat : Beats fixed (fix 1000) (fix 2000) (some (fix 2000)) (pos 1)
unfolding evaluate judge_last
one_beat = beat (fix 2000) start first_beat

clock : IsClock fixed (fix 1000) (fix 5000) (fix 2000)
clock = record {
  finite = (refl, refl, refl);
  started_positive = refl;
  now_positive = refl;
  forward = refl;
  limited = refl;
}

next_beat_accepted_example : (evaluate fixed (at (some (fix 2000)) (pos 1) (fix 5000))).valid ≡ true
next_beat_accepted_example =
    next_beat_accepted fixed (fix 1000) (fix 2000) (some (fix 2000)) (pos 1) (fix 5000) one_beat
      clock refl
