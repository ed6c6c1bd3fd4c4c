-- ===== src/Supervisor/Session.antt =====
-- The rounds of a session, each with the state that the one before has left.
use mss_package.Common.{
  ◌≡◌, refl, Bool, true, Option, none, some, List, [], ◌∷◌, length, arith, ok, inl, inr, Bool-cases,
}
use mss_package.Common.Float.{Float}
use mss_package.Common.Int.{ℤ, pos}
use mss_package.Common.Text.{Text}
use mss_package.Heartbeat.{evaluate as evaluate_heartbeat}
use mss_package.Heartbeat.Beats.{IsForward}
use mss_package.Heartbeat.Health.{IsClock, IsState, evaluate-IsInput}
use mss_package.Supervisor.{
  ShadowLiveRuntimeSupervisorInput, ShadowLiveRuntimeSupervisorDecision, heartbeat_input, evaluate,
}
use mss_package.Supervisor.History.{Round, latest, telemetry_of, decision_of}
use mss_package.Supervisor.Judging.{round, round_input}
use mss_package.Supervisor.Rounds.{evaluate-round, now_well}
use mss_package.Telemetry.{ShadowLiveRuntimeTelemetryState, is_last, initialize}

module _ {N : Type 0} (F : Float N) (started : N) (str_float : N → Text) (limit : N) where
  abbrev pub input :
      Option N → ℤ → N → Bool → Bool → Bool → Bool → ShadowLiveRuntimeSupervisorInput N
  input last sequence now m t a p = record {
    started_monotonic = started;
    now_monotonic = now;
    last_heartbeat_monotonic = last;
    heartbeat_sequence = sequence;
    max_heartbeat_gap_seconds = limit;
    mt5_connected = m;
    terminal_available = t;
    account_available = a;
    portfolio_recovery_valid = p;
  }

  -- The states of a session: at first an initialised telemetry, and then what an accepted round
  -- leaves, with the rounds so far.
  pub data Session
      : Option N → ℤ → ShadowLiveRuntimeTelemetryState N → List (Round N) → Type 0 where
    begin :
        {state : ShadowLiveRuntimeTelemetryState N}
        → initialize F started ≡ ok state
        → Session none (pos 0) state []
    supervise :
        {last : Option N} {sequence : ℤ} {state : ShadowLiveRuntimeTelemetryState N}
        {rounds : List (Round N)} (now : N) (m t a p : Bool)
        (d : ShadowLiveRuntimeSupervisorDecision N)
        → Session last sequence state rounds
        → evaluate F str_float (input last sequence now m t a p) state ≡ ok d
        → d.valid ≡ true
        → Session
            (some d.next_last_heartbeat_monotonic)
            d.next_heartbeat_sequence
            d.telemetry_state
            (round F started str_float limit now m t a p rounds ∷ rounds)

  -- What the loop and the telemetry keep is what the rounds say.
  record IsRecorded (last : Option N) (sequence : ℤ) (state : ShadowLiveRuntimeTelemetryState N)
      (rounds : List (Round N)) : Type 0 where
    last_of : last ≡ latest rounds
    sequence_of : sequence ≡ pos (length rounds)
    state_of : state ≡ telemetry_of F str_float started rounds
    past : is_last F started (latest rounds) ≡ true

  initialize-ok :
      (state : ShadowLiveRuntimeTelemetryState N)
      → initialize F started ≡ ok state
      → state ≡ telemetry_of F str_float started []
  unfolding initialize
  initialize-ok state e = ground (arith, e)

  heartbeat_valid :
      (s : ShadowLiveRuntimeSupervisorInput N) (state : ShadowLiveRuntimeTelemetryState N)
      (d : ShadowLiveRuntimeSupervisorDecision N)
      → evaluate F str_float s state ≡ ok d
      → d.valid ≡ true
      → (evaluate_heartbeat F (heartbeat_input s)).valid ≡ true
  unfolding evaluate
  heartbeat_valid s state d e v =
      elim (Bool-cases (evaluate_heartbeat F (heartbeat_input s)).valid) [
        | inl h ↦ h
        | inr h ↦ ground (arith, h, e, v)
      ]

  IsState-IsForward :
      (now : N) (last : Option N) (n : ℤ)
      → IsState F started now last n
      → IsForward F started limit last now
  IsState-IsForward now none n s = tt
  IsState-IsForward now (some l) n s = s.2

  decided :
      (now : N) (m t a p : Bool) (rounds : List (Round N))
      (d : ShadowLiveRuntimeSupervisorDecision N)
      → is_last F started (latest rounds) ≡ true
      → evaluate F str_float
          (round_input F started str_float limit
            (round F started str_float limit now m t a p rounds)
            rounds)
          (telemetry_of F str_float started rounds)
        ≡ ok d
      → d.valid ≡ true
      → IsRecorded
          (some d.next_last_heartbeat_monotonic)
          d.next_heartbeat_sequence
          d.telemetry_state
          (round F started str_float limit now m t a p rounds ∷ rounds)
  decided now m t a p rounds d past e v =
      let r = round F started str_float limit now m t a p rounds in
      let s = round_input F started str_float limit r rounds in
      let (clock, state) = (evaluate-IsInput F (heartbeat_input s)).0 (heartbeat_valid s _ d e v) in
      let forward = IsState-IsForward now (latest rounds) (pos (length rounds)) state in
      let same : d ≡ decision_of F str_float started r rounds =
        cc (e, evaluate-round F started str_float limit now clock m t a p rounds past forward) in
      rw same (record {
        last_of = refl;
        sequence_of = refl;
        state_of = refl;
        past = now_well F started str_float limit now clock;
      })

  Session-IsRecorded :
      (last : Option N) (sequence : ℤ) (state : ShadowLiveRuntimeTelemetryState N)
      (rounds : List (Round N))
      → Session last sequence state rounds
      → IsRecorded last sequence state rounds
  Session-IsRecorded last sequence state rounds (begin e) = record {
    last_of = refl;
    sequence_of = refl;
    state_of = initialize-ok state e;
    past = refl;
  }
  Session-IsRecorded last sequence state rounds
        (supervise {last = l} {sequence = n} {state = u} {rounds = before} now m t a p d b e v) =
      let i = Session-IsRecorded l n u before b in
      decided now m t a p before d i.past (cc (e, i.last_of, i.sequence_of, i.state_of)) v

  -- After any session of accepted rounds, and at every time of a readable clock that runs forward,
  -- the supervisor raises nothing and returns the decision that the rounds determine: it names the
  -- first thing that is missing, is healthy exactly if nothing is, and leaves a telemetry whose
  -- counters are those of the rounds that were late, blocked, disconnected and without a recovery.
  pub next_round_decided :
      (last : Option N) (sequence : ℤ) (state : ShadowLiveRuntimeTelemetryState N)
      (rounds : List (Round N)) (now : N) (m t a p : Bool)
      → Session last sequence state rounds
      → IsClock F started now limit
      → IsForward F started limit last now
      → evaluate F str_float (input last sequence now m t a p) state
        ≡ ok (
            decision_of F str_float started
              (round F started str_float limit now m t a p rounds)
              rounds)
  next_round_decided last sequence state rounds now m t a p session clock forward =
      let i = Session-IsRecorded last sequence state rounds session in
      cc (
        i.last_of,
        i.sequence_of,
        i.state_of,
        evaluate-round F started str_float limit now clock m t a p rounds i.past
            (rw i.last_of at forward),
      )
