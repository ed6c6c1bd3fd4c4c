-- ===== src/Heartbeat/Beats.antt =====
-- The heartbeats of a run, each with the state that the one before has left.
use mss_package.Common.{◌≡◌, refl, ◌∙◌, ap, true, false, Option, none, some, arith}
use mss_package.Common.Float.{Float}
use mss_package.Common.Int.{ℤ, pos, ◌<ℤ◌, ◌≤ℤ◌, ◌+ℤ◌, +ℤ_parts, leb_ℤ}
use mss_package.Heartbeat.{
  ShadowLiveHeartbeatInput, ShadowLiveHeartbeatDecision, judge_last, evaluate,
}
use mss_package.Heartbeat.Health.{IsClock, IsState, evaluate-IsInput, same_judgement}

module _ {N : Type 0} (F : Float N) (started limit : N) where
  open F use {lt, is_finite}

  abbrev pub input : Option N → ℤ → N → ShadowLiveHeartbeatInput N
  input last sequence now = record {
    started_monotonic = started;
    now_monotonic = now;
    last_heartbeat_monotonic = last;
    heartbeat_sequence = sequence;
    max_heartbeat_gap_seconds = limit;
  }

  -- The states of a run: none at first, and then what an accepted heartbeat leaves.
  pub data Beats : Option N → ℤ → Type 0 where
    start : Beats none (pos 0)
    beat :
        {last : Option N} {sequence : ℤ} (now : N)
        → Beats last sequence
        → (evaluate F (input last sequence now)).valid ≡ true
        → Beats
            (some (evaluate F (input last sequence now)).next_last_heartbeat_monotonic)
            (evaluate F (input last sequence now)).next_heartbeat_sequence

  -- No time before now is later than it.
  abbrev pub IsForward : Option N → N → Type 0
  IsForward none now = Unit
  IsForward (some l) now = lt now l ≡ false

  -- A state of a run, whatever the time is.
  abbrev IsKept : Option N → ℤ → Type 0
  IsKept none n = n ≡ pos 0
  IsKept (some l) n = (is_finite l ≡ true) × (lt l started ≡ false) × (pos 0 <ℤ n)

  one_more : (n : ℤ) → pos 0 ≤ℤ n → pos 0 <ℤ n +ℤ pos 1
  one_more n h = ground (arith, +ℤ_parts n (pos 1))

  judge_last_next :
      (h : ShadowLiveHeartbeatInput N) (last : Option N)
      → IsState F h.started_monotonic h.now_monotonic last h.heartbeat_sequence
      → ((judge_last F h last).next_last_heartbeat_monotonic ≡ h.now_monotonic)
        × (pos 0 <ℤ (judge_last F h last).next_heartbeat_sequence)
  unfolding judge_last
  judge_last_next h none e = rw e (refl, omega arith)
  judge_last_next h (some l) e =
      let counted = one_more h.heartbeat_sequence (omega (arith, e.3)) in
      let positive : leb_ℤ h.heartbeat_sequence (pos 0) ≡ false = ground (arith, e.3) in
      ground (arith, e.0, e.1, e.2, positive, counted)

  kept-IsState :
      (now : N) (last : Option N) (n : ℤ)
      → IsKept last n
      → IsForward last now
      → IsState F started now last n
  kept-IsState now none n k f = k
  kept-IsState now (some l) n k f = (k.0, k.1, f, k.2)

  Beats-IsKept : (last : Option N) (n : ℤ) → Beats last n → IsKept last n
  Beats-IsKept last n start = refl
  Beats-IsKept last n (beat {last = before} {sequence = m} now b v) =
      let h : ShadowLiveHeartbeatInput N = input before m now in
      let i = (evaluate-IsInput F h).0 v in
      let same = same_judgement F h i in
      let (at_now, counted) = judge_last_next h before i.1 in
      let time =
        ap (λ (d : ShadowLiveHeartbeatDecision N). d.next_last_heartbeat_monotonic) same ∙ at_now in
      let number = ap (λ (d : ShadowLiveHeartbeatDecision N). d.next_heartbeat_sequence) same in
      rw time (i.0.finite.1, i.0.forward, rw number counted)

  -- In a run of accepted heartbeats the next one is accepted as well, whether it is late or not, at
  -- every time of a readable clock that runs forward.
  pub next_beat_accepted :
      (last : Option N) (sequence : ℤ) (now : N)
      → Beats last sequence
      → IsClock F started now limit
      → IsForward last now
      → (evaluate F (input last sequence now)).valid ≡ true
  next_beat_accepted last sequence now b clock forward =
      (evaluate-IsInput F (input last sequence now)).1
        (clock, kept-IsState now last sequence (Beats-IsKept last sequence b) forward)
