-- ===== src/Entry/Timing.antt =====
-- When the watcher allows an entry.
use mss_package.Common.{◌≡◌, refl, ◌∙◌, sym, ap, true, Option, none, some, arith}
use mss_package.Common.Float.{Float}
use mss_package.Common.Int.{ℤ, pos, ◌<ℤ◌, ◌≤ℤ◌, eqb_ℤ, ◌-ℤ◌, eq_of_parts}
use mss_package.Entry.Signal.{FrozenShadowSignal}
use mss_package.Entry.Strategy.{FrozenShadowEntry, Quote, activate_entry}
use mss_package.Entry.Watcher.{
  NextCandleEntryWatchResult, Observation, take_entry, take_signal, check_times, evaluate,
}

-- A new bar, confirmed as the next one and seen within two seconds of its open.
pub record IsTimely (o : Observation) : Type 0 where
  pub before : pos 0 <ℤ o.previous_current_bar_epoch
  pub later : o.previous_current_bar_epoch <ℤ o.current_bar_epoch
  pub confirmed : o.next_candle_sequence_confirmed ≡ true
  pub not_early : pos 0 ≤ℤ o.observation_broker_epoch -ℤ o.current_bar_epoch
  pub not_late : o.observation_broker_epoch -ℤ o.current_bar_epoch ≤ℤ pos 2

module _ {N : Type 0} (F : Float N) where
  pub record IsReady (signal : Option (FrozenShadowSignal N)) (o : Observation) (q : Quote N)
      (r : NextCandleEntryWatchResult N) : Type 0 where
    pub timely : IsTimely o
    pub armed : FrozenShadowSignal N
    pub has_signal : signal ≡ some armed
    pub signal_valid : armed.valid ≡ true
    pub same_bar : armed.signal_bar_epoch ≡ o.previous_current_bar_epoch
    pub shown : r.entry ≡ some (activate_entry F (some armed) o.current_bar_epoch true q)
    pub entry_valid : (activate_entry F (some armed) o.current_bar_epoch true q).valid ≡ true

  -- The result of the tests of the epochs: in time, or a result that allows nothing.
  evaluate-IsTimely :
      (signal : Option (FrozenShadowSignal N)) (o : Observation) (q : Quote N)
      → (evaluate F signal o q).shadow_entry_allowed ≡ true
      → IsTimely o × (evaluate F signal o q ≡ take_signal F o q signal)
  unfolding evaluate check_times
  evaluate-IsTimely signal o q h = (
    record {
      before = ground arith;
      later = ground arith;
      confirmed = ground arith;
      not_early = ground arith;
      not_late = ground arith;
    },
    ground arith,
  )

  take_entry_inv :
      (o : Observation) (e : FrozenShadowEntry N)
      → (take_entry F o e).shadow_entry_allowed ≡ true
      → (e.valid ≡ true) × ((take_entry F o e).entry ≡ some e)
  unfolding take_entry
  take_entry_inv o e h = ground arith

  same_epoch : (a b : ℤ) → eqb_ℤ a b ≡ true → a ≡ b
  same_epoch a b h = eq_of_parts a b (ground arith)

  -- The watcher allows an entry only for a signal that is valid and was given on the bar before, on
  -- a new bar that is confirmed as the next one and seen within two seconds of its open; the entry
  -- that it shows is then the valid one that the strategy activates at this bar.
  pub evaluate-IsReady :
      (signal : Option (FrozenShadowSignal N)) (o : Observation) (q : Quote N)
      → (evaluate F signal o q).shadow_entry_allowed ≡ true
      → IsReady signal o q (evaluate F signal o q)
  unfolding take_signal
  evaluate-IsReady none o q h =
      let (timely, same) = evaluate-IsTimely none o q h in
      ground (arith, ap (λ (r : NextCandleEntryWatchResult N). r.shadow_entry_allowed) same)
  evaluate-IsReady (some s) o q h =
      let (timely, same) = evaluate-IsTimely (some s) o q h in
      let allowed : (take_signal F o q (some s)).shadow_entry_allowed ≡ true =
        sym (ap (λ (r : NextCandleEntryWatchResult N). r.shadow_entry_allowed) same) ∙ h in
      let e : FrozenShadowEntry N = activate_entry F (some s) o.current_bar_epoch true q in
      let is_valid : s.valid ≡ true = ground (arith, allowed) in
      let at_bar : eqb_ℤ s.signal_bar_epoch o.previous_current_bar_epoch ≡ true =
        ground (arith, allowed, is_valid) in
      let taken : take_signal F o q (some s) ≡ take_entry F o e = rw (is_valid, at_bar) refl in
      let (entry_valid, entry_shown) =
        take_entry_inv o e (
          sym (ap (λ (r : NextCandleEntryWatchResult N). r.shadow_entry_allowed) taken)
          ∙ allowed) in
      record {
        timely = timely;
        armed = s;
        has_signal = refl;
        signal_valid = is_valid;
        same_bar = same_epoch s.signal_bar_epoch o.previous_current_bar_epoch at_bar;
        shown = ap (λ (r : NextCandleEntryWatchResult N). r.entry) (same ∙ taken) ∙ entry_shown;
        entry_valid = entry_valid;
      }
