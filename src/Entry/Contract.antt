-- ===== src/Entry/Contract.antt =====
-- From the result of the pipeline to the entry: the frozen contract is kept.
use mss_package.Common.{
  ◌≡◌, refl, ◌∙◌, sym, ap, ◌⊎◌, inl, inr, true, false, ◌||◌, Option, none, some, arith, Bool-cases,
  if◌then◌else◌,
}
use mss_package.Common.Float.{Float, nought}
use mss_package.Common.Int.{ℤ, pos, ◌<ℤ◌, leb_ℤ}
use mss_package.Common.Text.{Text, codes, text_eq, text_eq_iff, is_empty, upper}
use mss_package.Entry.Signal.{
  PipelineResult, FrozenShadowSignal, buy, sell, direction_from_bos, armed_signal, arm_with_stop,
  arm_pipeline, arm_signal,
}
use mss_package.Entry.Strategy.{FrozenShadowEntry, Quote, activate_entry}
use mss_package.Entry.Activation.{IsFilled, activate_entry-IsFilled}
use mss_package.Entry.Timing.{IsTimely, evaluate-IsReady}
use mss_package.Entry.Watcher.{Observation, evaluate}

module _ {N : Type 0} (F : Float N) where
  open F use {le}

  -- The level at which a direction stops.
  abbrev pub stop_level : PipelineResult N → Option N
  stop_level p =
      if text_eq (direction_from_bos p.bos_direction) buy then p.last_low else p.last_high

  -- A signal of a valid M15 result with a break of structure.
  pub record IsArmed (p : PipelineResult N) (epoch : ℤ) (s : FrozenShadowSignal N) : Type 0 where
    pub has_symbol : is_empty p.symbol ≡ false
    pub quarter_hours : upper p.timeframe ≡ codes "M15"
    pub after_start : pos 0 <ℤ epoch
    pub valid_result : p.valid ≡ true
    pub broken : p.bos_detected ≡ true
    pub direction :
        (direction_from_bos p.bos_direction ≡ buy) ⊎ (direction_from_bos p.bos_direction ≡ sell)
    pub stop : N
    pub at_level : stop_level p ≡ some stop
    pub stop_positive : le stop (nought F) ≡ false
    pub same :
        s
        ≡ armed_signal F p.symbol
            (upper p.timeframe)
            (direction_from_bos p.bos_direction)
            epoch
            stop

  direction_cases :
      (bos : Text)
      → is_empty (direction_from_bos bos) ≡ false
      → (direction_from_bos bos ≡ buy) ⊎ (direction_from_bos bos ≡ sell)
  unfolding direction_from_bos
  direction_cases bos h =
      elim (Bool-cases (text_eq (upper bos) (codes "BULLISH") || text_eq (upper bos) buy)) [
        | inl q ↦ inl (rw q refl)
        | inr q ↦
            elim (Bool-cases (text_eq (upper bos) (codes "BEARISH") || text_eq (upper bos) sell)) [
              | inl k ↦ inr (rw (q, k) refl)
              | inr k ↦ ground (arith, q, k, h)
            ]
      ]

  arm_with_stop_inv :
      (symbol timeframe direction : Text) (epoch : ℤ) (level : Option N)
      → (arm_with_stop F symbol timeframe direction epoch level).valid ≡ true
      → (stop : N) × (level ≡ some stop)
        × (le stop (nought F) ≡ false)
        × (arm_with_stop F symbol timeframe direction epoch level
            ≡ armed_signal F symbol timeframe direction epoch stop)
  unfolding arm_with_stop
  arm_with_stop_inv symbol timeframe direction epoch none h = ground arith
  arm_with_stop_inv symbol timeframe direction epoch (some stop) h =
      (stop, refl, ground arith, ground arith)

  arm_pipeline_inv :
      (p : PipelineResult N) (epoch : ℤ)
      → (arm_pipeline F p epoch).valid ≡ true
      → (is_empty p.symbol ≡ false)
        × (text_eq (upper p.timeframe) (codes "M15") ≡ true)
        × (leb_ℤ epoch (pos 0) ≡ false)
        × (p.valid ≡ true)
        × (p.bos_detected ≡ true)
        × (is_empty (direction_from_bos p.bos_direction) ≡ false)
        × (arm_pipeline F p epoch
            ≡ arm_with_stop F p.symbol
                (upper p.timeframe)
                (direction_from_bos p.bos_direction)
                epoch
                (stop_level p))
  unfolding arm_pipeline
  arm_pipeline_inv p epoch h = ground arith

  arm_signal-IsArmed :
      (p : PipelineResult N) (epoch : ℤ)
      → (arm_pipeline F p epoch).valid ≡ true
      → IsArmed p epoch (arm_pipeline F p epoch)
  arm_signal-IsArmed p epoch h =
      let (y, m, e, v, b, d, same) = arm_pipeline_inv p epoch h in
      let (stop, level, positive, armed) =
        arm_with_stop_inv p.symbol (upper p.timeframe) (direction_from_bos p.bos_direction) epoch
          (stop_level p) (sym (ap (λ (s : FrozenShadowSignal N). s.valid) same) ∙ h) in
      record {
        has_symbol = y;
        quarter_hours = (text_eq_iff (upper p.timeframe) (codes "M15")).0 m;
        after_start = ground (arith, e);
        valid_result = v;
        broken = b;
        direction = direction_cases p.bos_direction d;
        stop = stop;
        at_level = level;
        stop_positive = positive;
        same = same ∙ armed;
      }

  -- An entry that keeps the contract, from the pipeline to the fill.
  pub record KeepsContract (result : Option (PipelineResult N)) (epoch : ℤ) (o : Observation)
      (q : Quote N) (shown : Option (FrozenShadowEntry N)) : Type 0 where
    pub pipeline : PipelineResult N
    pub has_result : result ≡ some pipeline
    pub armed : IsArmed pipeline epoch (arm_signal F result epoch)
    pub timely : IsTimely o
    pub bar_before : epoch ≡ o.previous_current_bar_epoch
    pub entry : FrozenShadowEntry N
    pub shows : shown ≡ some entry
    pub filled : IsFilled F (arm_signal F result epoch) o.current_bar_epoch q entry

  some_inj : {a b : FrozenShadowSignal N} → some a ≡ some b → a ≡ b
  some_inj h = cc h

  valid_result_of :
      (result : Option (PipelineResult N)) (epoch : ℤ)
      → (arm_signal F result epoch).valid ≡ true
      → (p : PipelineResult N) × (result ≡ some p) × IsArmed p epoch (arm_signal F result epoch)
  unfolding arm_signal
  valid_result_of none epoch h = ground arith
  valid_result_of (some p) epoch h = (p, refl, arm_signal-IsArmed p epoch h)

  -- An entry that the watcher allows for a signal of the strategy keeps the frozen contract: the
  -- signal comes from a valid M15 result with a break of structure, its stop is the last low of a
  -- purchase or the last high of a sale, it was given on the bar before, the next bar was seen in
  -- time, and the entry is filled by the strategy at that bar.
  pub allowed-KeepsContract :
      (result : Option (PipelineResult N)) (epoch : ℤ) (o : Observation) (q : Quote N)
      → (evaluate F (some (arm_signal F result epoch)) o q).shadow_entry_allowed ≡ true
      → KeepsContract result epoch o q (evaluate F (some (arm_signal F result epoch)) o q).entry
  allowed-KeepsContract result epoch o q h =
      let s : FrozenShadowSignal N = arm_signal F result epoch in
      let ready = evaluate-IsReady F (some s) o q h in
      let same : s ≡ ready.armed = some_inj ready.has_signal in
      let s_valid : s.valid ≡ true =
        ap (λ (x : FrozenShadowSignal N). x.valid) same ∙ ready.signal_valid in
      let (p, has_result, armed) = valid_result_of result epoch s_valid in
      let entry_valid : (activate_entry F (some s) o.current_bar_epoch true q).valid ≡ true =
        ap (λ x. (activate_entry F (some x) o.current_bar_epoch true q).valid) same
        ∙ ready.entry_valid in
      record {
        pipeline = p;
        has_result = has_result;
        armed = armed;
        timely = ready.timely;
        bar_before =
            sym (ap (λ (x : FrozenShadowSignal N). x.signal_bar_epoch) armed.same)
            ∙ ap (λ (x : FrozenShadowSignal N). x.signal_bar_epoch) same
            ∙ ready.same_bar;
        entry = activate_entry F (some s) o.current_bar_epoch true q;
        shows =
            ready.shown
            ∙ ap (λ x. some (activate_entry F (some x) o.current_bar_epoch true q)) (sym same);
        filled = activate_entry-IsFilled F s o.current_bar_epoch true q entry_valid;
      }
