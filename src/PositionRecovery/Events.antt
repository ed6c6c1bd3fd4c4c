-- ===== src/PositionRecovery/Events.antt =====
-- The loop over the events in `recover` of src/mss/analysis/shadow_position_recovery.py.
use mss_package.Common.{
  Bool, true, false, not, Option, none, some, List, [], ◌∷◌, Result, ok, err, ◌>>=◌, if◌then◌else◌,
}
use mss_package.Common.Dict.{Dict, insert, erase}
use mss_package.Common.Float.{Float, nought}
use mss_package.Common.Int.{ℤ, pos, eqb_ℤ}
use mss_package.Common.Text.{Text, codes, text_eq, is_empty}
use mss_package.Journal.Json.{
  Json, null, boolean, integer, floating, string, array, object, nil, cons, Fields, end, field,
  Library, ConversionError, type_or_value_error, overflow_error, as_object, get,
}
use mss_package.Recovery.Replay.{or_else, text_of, event_text, event_type, or_key_error, item}
use mss_package.VirtualPosition.Engine.{VirtualPosition, status_open, empty_position}

-- The exceptions that the loop lets through.
pub data EventEscape : Type 0 where
  attribute_escape overflow_escape : EventEscape

-- After one event or all: the open positions, or the end of the call.
pub data Outcome (N : Type 0) : Type 0 where
  proceed : Dict (VirtualPosition N) → Outcome N
  invalid_event : Outcome N
  escape : EventEscape → Outcome N

-- What an opening says of its position.
pub record OpenedFields (N : Type 0) : Type 0 where
  pub symbol : Text
  pub direction : Text
  pub volume : N
  pub entry_price : N
  pub stop_loss : N
  pub take_profit : N
  pub initial_risk_price : N
  pub open_broker_epoch : ℤ
  pub broker_position_ticket : ℤ
  pub broker_position_identifier : ℤ

module _ {N : Type 0} (F : Float N) where
  -- `bool(value)`
  abbrev pub is_truthy : Json N → Bool
  is_truthy null = false
  is_truthy (boolean b) = b
  is_truthy (integer n) = not (eqb_ℤ n (pos 0))
  is_truthy (floating x) = not (F.eq x (nought F))
  is_truthy (string t) = not (is_empty t)
  is_truthy (array nil) = false
  is_truthy (array (cons _ _)) = true
  is_truthy (object end) = false
  is_truthy (object (field _ _ _)) = true

  -- `payload.get(key, 0) or 0`
  abbrev pub or_zero : Option (Json N) → Json N
  or_zero none = integer (pos 0)
  or_zero (some v) = if is_truthy v then v else integer (pos 0)

  -- `VirtualPosition(position_id=..., ..., status="OPEN", valid=True)`
  abbrev pub position_of : Text → OpenedFields N → VirtualPosition N
  position_of id fields = record (empty_position F) {
    position_id = id;
    symbol = fields.symbol;
    direction = fields.direction;
    volume = fields.volume;
    entry_price = fields.entry_price;
    stop_loss = fields.stop_loss;
    take_profit = fields.take_profit;
    initial_risk_price = fields.initial_risk_price;
    open_broker_epoch = fields.open_broker_epoch;
    broker_position_ticket = fields.broker_position_ticket;
    broker_position_identifier = fields.broker_position_identifier;
    status = status_open;
    valid = true;
  }

module _ {N : Type 0} (L : Library N) (F : Float N) where
  open L use {to_float, to_int}

  -- `payload.get(key, 0) or 0`, of a payload that is a dictionary since its items have been read.
  abbrev pub optional_item : Text → Json N → Json N
  optional_item key payload = elim (as_object payload) [
    | none ↦ integer (pos 0)
    | some fs ↦ or_zero F (get key fs)
  ]

  -- The values for the `VirtualPosition` of an opening, in the order in which they are computed.
  unfoldable pub read_fields : Fields N → Json N → Result ConversionError (OpenedFields N)
  read_fields event payload = do
    symbol ← item L (codes "symbol") payload
    direction ← item L (codes "direction") payload
    volume ← item L (codes "volume") payload >>= to_float
    entry_price ← item L (codes "entry_price") payload >>= to_float
    stop_loss ← item L (codes "stop_loss") payload >>= to_float
    take_profit ← item L (codes "take_profit") payload >>= to_float
    initial_risk_price ← item L (codes "initial_risk_price") payload >>= to_float
    broker_epoch ← or_key_error L (get (codes "broker_epoch") event) >>= to_int
    ticket ← to_int (optional_item (codes "broker_position_ticket") payload)
    identifier ← to_int (optional_item (codes "broker_position_identifier") payload)
    ok (record {
      symbol = text_of L symbol;
      direction = text_of L direction;
      volume = volume;
      entry_price = entry_price;
      stop_loss = stop_loss;
      take_profit = take_profit;
      initial_risk_price = initial_risk_price;
      open_broker_epoch = broker_epoch;
      broker_position_ticket = ticket;
      broker_position_identifier = identifier;
    })

  unfoldable pub open_with :
      Text → Dict (VirtualPosition N) → Result ConversionError (OpenedFields N) → Outcome N
  open_with id positions (ok fields) = proceed (insert id (position_of F id fields) positions)
  open_with id positions (err type_or_value_error) = invalid_event
  open_with id positions (err overflow_error) = escape overflow_escape

  -- One round of the loop, for an event that is a dictionary.
  unfoldable pub apply_event : Dict (VirtualPosition N) → Fields N → Outcome N
  unfolding open_with
  apply_event positions event =
      let id = event_text L (codes "position_id") event in
      if is_empty id
      then proceed positions
      else if text_eq (event_type L event) (codes "POSITION_OPENED")
      then open_with id positions
          (read_fields event (or_else (get (codes "payload") event) (object end)))
      else if text_eq (event_type L event) (codes "POSITION_CLOSED")
      then proceed (erase id positions)
      else proceed positions

  -- The loop over the events.
  unfoldable pub replay : Dict (VirtualPosition N) → List (Json N) → Outcome N
  replay positions [] = proceed positions
  replay positions (value ∷ events) = elim (as_object value) [
    | none ↦ escape attribute_escape
    | some event ↦ elim (apply_event positions event) [
      | proceed next ↦ replay next events
      | invalid_event ↦ invalid_event
      | escape e ↦ escape e
    ]
  ]
