-- ===== src/Heartbeat/Health.antt =====
-- When a heartbeat is healthy, and when its input is refused.
use mss_package.Common.{
  ◌≡◌, refl, ◌∙◌, sym, ap, ◌↔◌, inl, inr, true, false, not, Option, none, some, arith, Bool-cases,
  Option-cases,
}
use mss_package.Common.Float.{Float, nought}
use mss_package.Common.Int.{ℤ, pos, ◌<ℤ◌, ltb_ℤ, eqb_ℤ, eq_of_parts}
use mss_package.Heartbeat.{
  ShadowLiveHeartbeatInput, ShadowLiveHeartbeatDecision, judge_last, evaluate,
}

module _ {N : Type 0} (F : Float N) where
  open F use {lt, le, sub, is_finite}

  -- A clock that can be read, and a limit.
  pub record IsClock (started now limit : N) : Type 0 where
    pub finite : (is_finite started ≡ true) × (is_finite now ≡ true) × (is_finite limit ≡ true)
    pub started_positive : lt started (nought F) ≡ false
    pub now_positive : lt now (nought F) ≡ false
    pub forward : lt now started ≡ false
    pub limited : le limit (nought F) ≡ false

  -- No heartbeat yet, or one between the start and now with its number.
  abbrev pub IsState : N → N → Option N → ℤ → Type 0
  IsState started now none n = n ≡ pos 0
  IsState started now (some l) n =
      (is_finite l ≡ true) × (lt l started ≡ false) × (lt now l ≡ false) × (pos 0 <ℤ n)

  -- The heartbeat before is not too long ago.
  abbrev pub IsFresh : N → N → Option N → Type 0
  IsFresh now limit none = Unit
  IsFresh now limit (some l) = lt limit (sub now l) ≡ false

  abbrev pub IsInput : ShadowLiveHeartbeatInput N → Type 0
  IsInput h =
      IsClock h.started_monotonic h.now_monotonic h.max_heartbeat_gap_seconds
      × IsState h.started_monotonic h.now_monotonic h.last_heartbeat_monotonic h.heartbeat_sequence

  is_nought : (n : ℤ) → eqb_ℤ n (pos 0) ≡ true → n ≡ pos 0
  is_nought n h = eq_of_parts n (pos 0) (ground arith)

  judge_last-IsState :
      (h : ShadowLiveHeartbeatInput N) (last : Option N)
      → ltb_ℤ h.heartbeat_sequence (pos 0) ≡ false
      → ((judge_last F h last).valid ≡ true)
        ↔ IsState h.started_monotonic h.now_monotonic last h.heartbeat_sequence
  unfolding judge_last
  judge_last-IsState h none p =
      (λ v. is_nought h.heartbeat_sequence (ground (arith, v)), λ e. rw e refl)
  judge_last-IsState h (some l) p = ground arith

  judge_last_healthy :
      (h : ShadowLiveHeartbeatInput N) (last : Option N)
      → ((judge_last F h last).healthy ≡ true) ↔ (
          ((judge_last F h last).valid ≡ true)
          × IsFresh h.now_monotonic h.max_heartbeat_gap_seconds last)
  unfolding judge_last
  judge_last_healthy h none = ground arith
  judge_last_healthy h (some l) = ground arith

  judge_last_blocks :
      (h : ShadowLiveHeartbeatInput N) (last : Option N)
      → (judge_last F h last).hard_block ≡ not (judge_last F h last).healthy
  unfolding judge_last
  judge_last_blocks h none = ground arith
  judge_last_blocks h (some l) = ground arith

  not_negative :
      (started now : N) (last : Option N) (n : ℤ)
      → IsState started now last n
      → ltb_ℤ n (pos 0) ≡ false
  not_negative started now none n e = rw e refl
  not_negative started now (some l) n e = ground (arith, e.3)

  clock_passes :
      (h : ShadowLiveHeartbeatInput N)
      → IsClock h.started_monotonic h.now_monotonic h.max_heartbeat_gap_seconds
      → ltb_ℤ h.heartbeat_sequence (pos 0) ≡ false
      → evaluate F h ≡ judge_last F h h.last_heartbeat_monotonic
  unfolding evaluate
  clock_passes h c n =
      rw
        (
          c.finite.0, c.finite.1, c.finite.2, c.started_positive, c.now_positive, c.forward,
          c.limited, n,
        )
        refl

  IsClock-of :
      (h : ShadowLiveHeartbeatInput N)
      → (evaluate F h).valid ≡ true
      → IsClock h.started_monotonic h.now_monotonic h.max_heartbeat_gap_seconds
        × (ltb_ℤ h.heartbeat_sequence (pos 0) ≡ false)
  unfolding evaluate
  IsClock-of h v = (
    record {
      finite = (ground arith, ground arith, ground arith);
      started_positive = ground arith;
      now_positive = ground arith;
      forward = ground arith;
      limited = ground arith;
    },
    ground arith,
  )

  refused_blocks :
      (h : ShadowLiveHeartbeatInput N)
      → (evaluate F h).valid ≡ false
      → ((evaluate F h).healthy ≡ false) × ((evaluate F h).hard_block ≡ true)
  unfolding evaluate judge_last
  refused_blocks h v = elim (Option-cases h.last_heartbeat_monotonic) [
    | inl e ↦ ground (arith, e, v)
    | inr (l, e) ↦ ground (arith, e, v)
  ]

  pub evaluate-IsInput :
      (h : ShadowLiveHeartbeatInput N) → ((evaluate F h).valid ≡ true) ↔ IsInput h
  evaluate-IsInput h = (
    λ v.
        let (clock, n) = IsClock-of h v in
        let same = ap (λ (d : ShadowLiveHeartbeatDecision N). d.valid) (clock_passes h clock n) in
        (clock, (judge_last-IsState h h.last_heartbeat_monotonic n).0 (sym same ∙ v)),
    λ (clock, state).
        let n =
          not_negative h.started_monotonic h.now_monotonic h.last_heartbeat_monotonic
            h.heartbeat_sequence state in
        ap (λ (d : ShadowLiveHeartbeatDecision N). d.valid) (clock_passes h clock n)
        ∙ (judge_last-IsState h h.last_heartbeat_monotonic n).1 state,
  )

  -- What a decision says of its input.
  pub record IsJudged (h : ShadowLiveHeartbeatInput N) (d : ShadowLiveHeartbeatDecision N)
      : Type 0 where
    pub valid_iff : (d.valid ≡ true) ↔ IsInput h
    pub healthy_iff : (d.healthy ≡ true) ↔ (
        IsInput h × IsFresh h.now_monotonic h.max_heartbeat_gap_seconds h.last_heartbeat_monotonic)
    pub blocks : d.hard_block ≡ not d.healthy

  pub same_judgement :
      (h : ShadowLiveHeartbeatInput N)
      → IsInput h
      → evaluate F h ≡ judge_last F h h.last_heartbeat_monotonic
  same_judgement h (clock, state) = clock_passes h clock (
      not_negative h.started_monotonic h.now_monotonic h.last_heartbeat_monotonic
        h.heartbeat_sequence state)

  healthy_valid :
      (h : ShadowLiveHeartbeatInput N) → (evaluate F h).healthy ≡ true → (evaluate F h).valid ≡ true
  healthy_valid h b = elim (Bool-cases (evaluate F h).valid) [
    | inl v ↦ v
    | inr v ↦ absurd (cc (b, (refused_blocks h v).0))
  ]

  -- An input is accepted exactly if the clock can be read and runs forward from the start, the limit
  -- is above zero, and the state is none with number 0 or a time between the start and now with a
  -- positive number; a decision is healthy exactly if moreover the heartbeat before, if any, is not
  -- longer ago than the limit; any other decision blocks.
  pub evaluate-IsJudged : (h : ShadowLiveHeartbeatInput N) → IsJudged h (evaluate F h)
  evaluate-IsJudged h =
      let last = h.last_heartbeat_monotonic in
      let (to_input, to_valid) = evaluate-IsInput h in
      record {
        valid_iff = (to_input, to_valid);
        healthy_iff = (
          λ b.
              let i = to_input (healthy_valid h b) in
              (
                i,
                ((judge_last_healthy h last).0 (
                    sym (ap (λ (d : ShadowLiveHeartbeatDecision N). d.healthy) (same_judgement h i))
                    ∙ b)).1,
              ),
          λ (i, fresh).
              let same = same_judgement h i in
              ap (λ (d : ShadowLiveHeartbeatDecision N). d.healthy) same
              ∙ (judge_last_healthy h last).1 (
                sym (ap (λ (d : ShadowLiveHeartbeatDecision N). d.valid) same) ∙ to_valid i,
                fresh,
              ),
        );
        blocks = elim (Bool-cases (evaluate F h).valid) [
          | inr v ↦ let (b, k) = refused_blocks h v in k ∙ ap not (sym b)
          | inl v ↦ rw (same_judgement h (to_input v)) (judge_last_blocks h last)
        ];
      }
