-- ===== src/Entry/Watcher.antt =====
-- src/mss/analysis/causal_next_candle_entry_watcher.py
use mss_package.Common.{Bool, true, false, not, Option, none, some, if◌then◌else◌}
use mss_package.Common.Float.{Float}
use mss_package.Common.Int.{ℤ, pos, ltb_ℤ, leb_ℤ, eqb_ℤ, ◌-ℤ◌}
use mss_package.Entry.Signal.{SignalReason, no_signal_reason, FrozenShadowSignal}
use mss_package.Entry.Strategy.{EntryReason, FrozenShadowEntry, Quote, activate_entry}

pub data WatchAction : Type 0 where
  blocked wait_for_next_bar entry_window_missed no_signal : WatchAction
  entry_blocked shadow_entry_ready : WatchAction

pub data WatchReason : Type 0 where
  invalid_bar_epoch bar_time_regression bar_not_transitioned : WatchReason
  sequence_not_confirmed invalid_observation_epoch : WatchReason
  observation_before_current_bar next_candle_observation_too_late : WatchReason
  no_frozen_signal signal_invalid signal_bar_does_not_match_observed_previous_bar : WatchReason
  -- The reason of the signal, or of the entry.
  reason_of_signal : SignalReason → WatchReason
  reason_of_entry : EntryReason → WatchReason
  causal_next_candle_entry_valid : WatchReason

pub record NextCandleEntryWatchResult (N : Type 0) : Type 0 where
  pub valid : Bool
  pub action : WatchAction
  pub reason : WatchReason
  pub previous_current_bar_epoch : ℤ
  pub current_bar_epoch : ℤ
  pub exact_bar_transition_observed : Bool
  pub bar_transition_missed : Bool
  pub next_candle_sequence_confirmed : Bool
  pub observation_broker_epoch : ℤ
  pub observation_delay_seconds : ℤ
  pub signal_valid : Bool
  pub entry : Option (FrozenShadowEntry N)
  pub shadow_entry_allowed : Bool
  pub real_order_send_allowed : Bool
  pub order_send_called : Bool
  pub order_check_called : Bool

-- The epochs that an observation compares.
pub record Observation : Type 0 where
  pub previous_current_bar_epoch : ℤ
  pub current_bar_epoch : ℤ
  pub observation_broker_epoch : ℤ
  pub next_candle_sequence_confirmed : Bool

-- `MAX_ENTRY_OBSERVATION_DELAY_SECONDS`
abbrev pub max_entry_observation_delay_seconds : ℤ
max_entry_observation_delay_seconds = pos 2

-- `signal.reason or "SIGNAL_INVALID"`
abbrev pub shown_reason : SignalReason → WatchReason
shown_reason no_signal_reason = signal_invalid
shown_reason r = reason_of_signal r

module _ {N : Type 0} where
  -- `NextCandleEntryWatchResult` with both epochs of the bars and all else as by default.
  abbrev pub watched : Bool → WatchAction → WatchReason → Observation → NextCandleEntryWatchResult N
  watched is_valid what why o = record {
    valid = is_valid;
    action = what;
    reason = why;
    previous_current_bar_epoch = o.previous_current_bar_epoch;
    current_bar_epoch = o.current_bar_epoch;
    exact_bar_transition_observed = false;
    bar_transition_missed = false;
    next_candle_sequence_confirmed = false;
    observation_broker_epoch = pos 0;
    observation_delay_seconds = pos 0;
    signal_valid = false;
    entry = none;
    shadow_entry_allowed = false;
    real_order_send_allowed = false;
    order_send_called = false;
    order_check_called = false;
  }

  -- With the transition to the next bar seen in time.
  abbrev pub transitioned :
      Bool → WatchAction → WatchReason → Observation → NextCandleEntryWatchResult N
  transitioned is_valid what why o = record (watched is_valid what why o) {
    exact_bar_transition_observed = true;
    next_candle_sequence_confirmed = true;
  }

module _ {N : Type 0} (F : Float N) where
  -- The end of `evaluate`, from the entry.
  unfoldable pub take_entry : Observation → FrozenShadowEntry N → NextCandleEntryWatchResult N
  take_entry o e =
      if not e.valid
      then record (transitioned false entry_blocked (reason_of_entry e.reason) o) {
        signal_valid = true;
        entry = some e;
      }
      else record (transitioned true shadow_entry_ready causal_next_candle_entry_valid o) {
        signal_valid = true;
        entry = some e;
        shadow_entry_allowed = true;
      }

  -- The tests of the signal.
  unfoldable pub take_signal :
      Observation → Quote N → Option (FrozenShadowSignal N) → NextCandleEntryWatchResult N
  unfolding take_entry
  take_signal o q none = transitioned true no_signal no_frozen_signal o
  take_signal o q (some s) =
      if not s.valid
      then transitioned true no_signal (shown_reason s.reason) o
      else if not (eqb_ℤ s.signal_bar_epoch o.previous_current_bar_epoch)
      then record (transitioned false entry_blocked signal_bar_does_not_match_observed_previous_bar
          o) { signal_valid = true }
      else take_entry o (activate_entry F (some s) o.current_bar_epoch true q)

  -- The tests of the epochs.
  unfoldable pub check_times :
      Observation → NextCandleEntryWatchResult N → NextCandleEntryWatchResult N
  check_times o in_time =
      let delay = o.observation_broker_epoch -ℤ o.current_bar_epoch in
      if leb_ℤ o.observation_broker_epoch (pos 0)
      then record (watched false entry_window_missed invalid_observation_epoch o) {
        next_candle_sequence_confirmed = true;
      }
      else if ltb_ℤ delay (pos 0)
      then record (watched false entry_window_missed observation_before_current_bar o) {
        observation_broker_epoch = o.observation_broker_epoch;
        observation_delay_seconds = delay;
        next_candle_sequence_confirmed = true;
      }
      else if ltb_ℤ max_entry_observation_delay_seconds delay
      then record (transitioned false entry_window_missed next_candle_observation_too_late o) {
        observation_broker_epoch = o.observation_broker_epoch;
        observation_delay_seconds = delay;
        bar_transition_missed = true;
      }
      else in_time

  -- `CausalNextCandleEntryWatcher.evaluate`
  unfoldable pub evaluate :
      Option (FrozenShadowSignal N) → Observation → Quote N → NextCandleEntryWatchResult N
  unfolding check_times take_signal
  evaluate signal o q =
      if leb_ℤ o.previous_current_bar_epoch (pos 0)
      then watched false blocked invalid_bar_epoch o
      else if leb_ℤ o.current_bar_epoch (pos 0)
      then watched false blocked invalid_bar_epoch o
      else if ltb_ℤ o.current_bar_epoch o.previous_current_bar_epoch
      then watched false blocked bar_time_regression o
      else if eqb_ℤ o.current_bar_epoch o.previous_current_bar_epoch
      then watched true wait_for_next_bar bar_not_transitioned o
      else if not o.next_candle_sequence_confirmed
      then record (watched false entry_window_missed sequence_not_confirmed o) {
        bar_transition_missed = true;
      }
      else check_times o (take_signal o q signal)
