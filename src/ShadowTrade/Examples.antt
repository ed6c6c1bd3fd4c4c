-- ===== src/ShadowTrade/Examples.antt =====
-- A purchase in EURUSD that is opened, recovered and stopped out, with stand-ins for json.
use mss_package.Common.{◌⊎◌}
use mss_package.VirtualPosition.Engine.{
  open_position, are_levels_ordered, exit_trigger, market_close_price, price_r_multiple,
}
use mss_package.Sizing.{calculate, direction_to_order_type, normalize_volume_down, limit_volume}
use mss_package.Sizing.Examples.{euro_size}
use mss_package.Sizing.{ShadowRiskResult}
use mss_package.PositionRecovery.{
  recover, recovery, no_open_shadow_position, open_shadow_position_recovered,
}
use mss_package.PositionRecovery.Events.{replay, apply_event, read_fields}
use mss_package.Recovery.{read_events}
use mss_package.RiskState.Position.{is_prohibited}
use mss_package.ShadowTrade.Opening.{IsRefused, IsOpening, open_trade-IsOpening}
use mss_package.ShadowTrade.Override.{check_override}
use mss_package.Valuation.{calculate as calculate_valuation}
use mss_package.Common.Dict.{insert, erase}
use mss_package.ShadowTrade.Open.{open_trade}
use mss_package.ShadowTrade.Update.{update_trade}
use mss_package.ShadowTrade.Recovered.{open_trade-recover, update_trade-recover}
use mss_package.ShadowTrade.{event_of, position_in}
use mss_package.Common.{
  ◌≡◌, refl, true, Option, none, some, [], ◌∷◌, Result, ok, err, if◌then◌else◌, is_some, Bool,
}
use mss_package.Common.Fixed.{Fixed, fix, fixed, fixed_add, fixed_sub}
use mss_package.Common.Int.{ℤ, pos, ◌+ℤ◌, ◌-ℤ◌}
use mss_package.Common.Text.{Text, codes, text_eq, strip, upper, lower}
use mss_package.Journal.Append.{body_of, append_event}
use mss_package.Journal.Append.Success.{Keeps, ReadsBack}
use mss_package.Journal.Chain.{File, genesis_sha256, verify, check_chain, is_linked, is_hashed}
use mss_package.Journal.Json.{
  Json, string, integer, floating, object, Fields, Library, ConversionError, type_or_value_error,
  as_object, get, without, with_field, is_text,
}
use mss_package.ShadowTrade.{TradeArguments, opened_payload, closed_payload, position_arguments}
use mss_package.Sizing.Examples.{rounding, terminal}
use mss_package.Sizing.{sized}
use mss_package.VirtualPosition.Engine.{VirtualPosition, opened_position, close_position}

abbrev trade : TradeArguments Fixed
trade = record {
  position_id = codes "P1";
  symbol = codes "EURUSD";
  direction = codes "buy";
  balance = fix 10000000;
  risk_percent = fix 1000;
  entry_price = fix 1100;
  stop_loss = fix 1090;
  take_profit = fix 1120;
  broker_epoch = pos 1780000000;
  volume_override = none;
  broker_position_ticket = pos 7;
  broker_position_identifier = pos 0;
}

abbrev pub bought : VirtualPosition Fixed
bought = opened_position fixed (position_arguments trade (fix 400))

abbrev stopped : VirtualPosition Fixed
stopped = close_position fixed bought (fix 1089) (pos 1780000900) (codes "STOP_LOSS") (fix 250000)

-- The encoder names an event by its type, and tells whether it has its hash.
abbrev tag : Bool → Option (Json Fixed) → Text
tag sealed (some (string t)) =
    if text_eq t (codes "POSITION_OPENED")
    then (if sealed then codes "opened" else codes "opened body")
    else if sealed
    then codes "closed"
    else codes "closed body"
tag sealed _ = []

abbrev encode : Json Fixed → Text
encode value = elim (as_object value) [
  | none ↦ []
  | some fs ↦ tag (is_some (get (codes "event_sha256") fs)) (get (codes "event_type") fs)
]

abbrev pub bought_risk : ShadowRiskResult Fixed
bought_risk = euro_size

abbrev pub opened_event : Fields Fixed
opened_event = with_field (codes "event_sha256") (string (codes "opened body")) (
    body_of 1 genesis_sha256 (codes "POSITION_OPENED") (codes "P1") (pos 1780000000)
      (opened_payload bought bought_risk))

abbrev closed_event : Fields Fixed
closed_event = with_field (codes "event_sha256") (string (codes "closed body")) (
    body_of 2 (codes "opened body") (codes "POSITION_CLOSED") (codes "P1") (pos 1780000900)
      (closed_payload stopped))

abbrev decode : Text → Option (Json Fixed)
decode line =
    if text_eq line (codes "opened")
    then some (object opened_event)
    else if text_eq line (codes "closed")
    then some (object closed_event)
    else none

abbrev float_of : Json Fixed → Result ConversionError Fixed
float_of (floating x) = ok x
float_of _ = err type_or_value_error

abbrev int_of : Json Fixed → Result ConversionError ℤ
int_of (integer n) = ok n
int_of _ = err type_or_value_error

abbrev pub library : Library Fixed
library = record {
  canonical_json = encode;
  loads = decode;
  sha256 = λ t. t;
  repr = λ _. [];
  to_float = float_of;
  to_int = int_of;
}

pub same-Keeps : (fs : Fields Fixed) → Keeps fs fs
same-Keeps fs = record { texts = λ key t h. h; integers = λ key n h. h; floats = λ key x h. h }

opened-ReadsBack : ReadsBack library opened_event opened_event
unfolding strip text_eq as_object get with_field body_of
opened-ReadsBack = record {
  parses = refl;
  flush = refl;
  nonempty = refl;
  keeps = same-Keeps opened_event;
  inside = λ key fs h. (fs, h, same-Keeps fs);
}

closed-ReadsBack : ReadsBack library closed_event closed_event
unfolding strip text_eq as_object get with_field body_of
closed-ReadsBack = record {
  parses = refl;
  flush = refl;
  nonempty = refl;
  keeps = same-Keeps closed_event;
  inside = λ key fs h. (fs, h, same-Keeps fs);
}

abbrev path : Text
path = codes "shadow_data/live.jsonl"

abbrev pub file : File
file = some (codes "opened" ∷ [])

bought_event :
    event_of (open_trade library fixed terminal rounding path trade none) ≡ some opened_event
unfolding open_trade is_prohibited calculate direction_to_order_type text_eq upper lower
    normalize_volume_down limit_volume sized fixed_add fixed_sub check_override open_position
    are_levels_ordered opened_payload ◌+ℤ◌ ◌-ℤ◌ append_event verify check_chain is_linked is_hashed
    is_text as_object get without with_field body_of
bought_event = refl

nothing_yet : recover library fixed none ≡ ok (recovery true no_open_shadow_position 0 0 none)
unfolding recover read_events replay apply_event read_fields strip text_eq upper ◌-ℤ◌ fixed_sub
    opened_payload verify check_chain is_linked is_hashed is_text as_object get without with_field
    body_of insert erase
nothing_yet = refl

open_trade-recover_example :
    (p : VirtualPosition Fixed) × (position_in
        (open_trade library fixed terminal rounding path trade none)
      ≡ some p)
    × (recover library fixed (open_trade library fixed terminal rounding path trade none).1
        ≡ ok (recovery true open_shadow_position_recovered 1 1 (some p)))
open_trade-recover_example =
    open_trade-recover library fixed (λ x. refl) (λ n. refl) terminal rounding path none 0
      opened_event opened_event opened-ReadsBack trade nothing_yet bought_event

bought_recovered :
    recover library fixed file ≡ ok (recovery true open_shadow_position_recovered 1 1 (some bought))
unfolding recover read_events replay apply_event read_fields strip text_eq upper ◌-ℤ◌ fixed_sub
    opened_payload verify check_chain is_linked is_hashed is_text as_object get without with_field
    body_of insert erase
bought_recovered = refl

stopped_event :
    event_of (
      update_trade library fixed terminal path
        (some bought)
        (fix 1089)
        (fix 1090)
        (pos 1780000900)
        file)
    ≡ some closed_event
unfolding update_trade is_prohibited exit_trigger market_close_price calculate_valuation
    direction_to_order_type close_position price_r_multiple closed_payload text_eq upper lower
    fixed_add fixed_sub ◌+ℤ◌ ◌-ℤ◌ append_event verify check_chain is_linked is_hashed is_text
    as_object get without with_field body_of
stopped_event = refl

update_trade-recover_example :
    recover library fixed
      (update_trade library fixed terminal path
        (some bought)
        (fix 1089)
        (fix 1090)
        (pos 1780000900)
        file).1
    ≡ ok (recovery true no_open_shadow_position 2 0 none)
update_trade-recover_example =
    update_trade-recover library fixed (λ x. refl) (λ n. refl) terminal rounding path file 1
      closed_event closed_event closed-ReadsBack bought (fix 1089) (fix 1090) (pos 1780000900)
      bought_recovered stopped_event

open_trade-IsOpening_example :
    IsRefused library fixed terminal rounding path trade none
      (open_trade library fixed terminal rounding path trade none)
    ⊎ IsOpening library fixed terminal rounding path trade none
        (open_trade library fixed terminal rounding path trade none)
open_trade-IsOpening_example = open_trade-IsOpening library fixed terminal rounding path trade none
