-- ===== src/Recovery/Replay.antt =====
-- The loop over the events in `recover` of src/mss/analysis/shadow_portfolio_risk_recovery.py.
use mss_package.Common.{
  ℕ, Option, none, some, List, [], ◌∷◌, Result, ok, err, ◌>>=◌, length, if◌then◌else◌,
}
use mss_package.Common.Dict.{Dict, has_key, insert, erase}
use mss_package.Common.Float.{Float}
use mss_package.Common.Text.{Text, codes, text_eq, is_empty, strip}
use mss_package.Journal.Json.{
  Json, string, object, Fields, end, Library, ConversionError, type_or_value_error, overflow_error,
  as_object, get,
}
use mss_package.RiskState.Position.{ShadowPortfolioPositionState, PositionArguments, build_position}
use mss_package.RiskState.Snapshot.{SnapshotReason}

-- The exceptions that `recover` lets through.
pub data Escape : Type 0 where
  attribute_escape overflow_escape : Escape

pub data RecoveryReason : Type 0 where
  shadow_journal_integrity_failure shadow_journal_read_failure : RecoveryReason
  invalid_position_id invalid_position_open_risk_event : RecoveryReason
  invalid_position_risk_state duplicate_open_position_id : RecoveryReason
  close_without_open_position unsupported_shadow_journal_event : RecoveryReason
  -- The reason of a snapshot that is not valid.
  snapshot_invalid : SnapshotReason → RecoveryReason
  no_open_portfolio_risk_position open_portfolio_risk_state_recovered : RecoveryReason

-- After one event or all: the open positions, or the end of the call.
pub data Outcome (N : Type 0) : Type 0 where
  proceed : Dict (ShadowPortfolioPositionState N) → Outcome N
  stop : RecoveryReason → ℕ → Outcome N
  escape : Escape → Outcome N

abbrev pub or_else {ℓ} : {A : Type ℓ} → Option A → A → A
or_else none a = a
or_else (some a) _ = a

module _ {N : Type 0} (L : Library N) where
  open L use {repr, to_float, to_int}

  -- `str(value)`
  abbrev pub text_of : Json N → Text
  text_of (string t) = t
  text_of v = repr v

  -- `str(event.get(key, ""))`
  abbrev pub event_text : Text → Fields N → Text
  event_text key event = text_of (or_else (get key event) (string []))

  abbrev pub event_type : Fields N → Text
  event_type event = event_text (codes "event_type") event

  abbrev pub event_id : Fields N → Text
  event_id event = strip (event_text (codes "position_id") event)

  abbrev pub or_key_error : Option (Json N) → Result ConversionError (Json N)
  or_key_error none = err type_or_value_error
  or_key_error (some v) = ok v

  -- `payload[key]`: a `KeyError` or a `TypeError` where there is no such item.
  abbrev pub item : Text → Json N → Result ConversionError (Json N)
  item key payload = elim (as_object payload) [
    | none ↦ err type_or_value_error
    | some fs ↦ or_key_error (get key fs)
  ]

  -- The arguments of `build_position`, in the order in which they are computed.
  unfoldable pub read_arguments :
      Text → Text → Fields N → Json N → Result ConversionError (PositionArguments N)
  read_arguments id path event payload = do
    symbol ← item (codes "symbol") payload
    direction ← item (codes "direction") payload
    risk_percent ← item (codes "risk_percent") payload >>= to_float
    risk_amount ← item (codes "risk_amount") payload >>= to_float
    entry_price ← item (codes "entry_price") payload >>= to_float
    stop_loss ← item (codes "stop_loss") payload >>= to_float
    take_profit ← item (codes "take_profit") payload >>= to_float
    broker_epoch ← or_key_error (get (codes "broker_epoch") event) >>= to_int
    ok (record {
      position_id = id;
      journal_path = path;
      symbol = text_of symbol;
      direction = text_of direction;
      risk_percent = risk_percent;
      risk_amount = risk_amount;
      entry_price = entry_price;
      stop_loss = stop_loss;
      take_profit = take_profit;
      open_broker_epoch = broker_epoch;
    })

module _ {N : Type 0} where
  -- `positions[position_id] = state`, after the tests of both.
  unfoldable pub add_position :
      Text
      → Option (ShadowPortfolioPositionState N)
      → Dict (ShadowPortfolioPositionState N)
      → Outcome N
  add_position id none positions = stop invalid_position_risk_state 0
  add_position id (some state) positions =
      if has_key id positions
      then stop duplicate_open_position_id 0
      else proceed (insert id state positions)

module _ {N : Type 0} (L : Library N) (F : Float N) where
  unfoldable pub open_with :
      Text
      → Dict (ShadowPortfolioPositionState N)
      → Result ConversionError (PositionArguments N)
      → Outcome N
  unfolding add_position
  open_with id positions (ok a) = add_position id (build_position F a) positions
  open_with id positions (err type_or_value_error) = stop invalid_position_open_risk_event 0
  open_with id positions (err overflow_error) = escape overflow_escape

  -- One round of the loop, for an event that is a dictionary.
  unfoldable pub apply_event : Text → Dict (ShadowPortfolioPositionState N) → Fields N → Outcome N
  unfolding open_with
  apply_event path positions event =
      if is_empty (event_id L event)
      then stop invalid_position_id 0
      else if text_eq (event_type L event) (codes "POSITION_OPENED")
      then open_with (event_id L event) positions (
          read_arguments L (event_id L event) path event
            (or_else (get (codes "payload") event) (object end)))
      else if text_eq (event_type L event) (codes "POSITION_CLOSED")
      then (if has_key (event_id L event) positions
          then proceed (erase (event_id L event) positions)
          else stop close_without_open_position 0)
      else stop unsupported_shadow_journal_event (length positions)

  -- The loop over the events.
  unfoldable pub replay : Text → Dict (ShadowPortfolioPositionState N) → List (Json N) → Outcome N
  replay path positions [] = proceed positions
  replay path positions (value ∷ events) = elim (as_object value) [
    | none ↦ escape attribute_escape
    | some event ↦ elim (apply_event path positions event) [
      | proceed next ↦ replay path next events
      | stop why open_count ↦ stop why open_count
      | escape e ↦ escape e
    ]
  ]
