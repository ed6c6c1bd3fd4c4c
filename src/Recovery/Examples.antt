-- ===== src/Recovery/Examples.antt =====
-- A recovery from a small journal, with stand-ins for the decoder and the hash.
use mss_package.Profiles.{get as profile_of}
use mss_package.Common.{
  ◌≡◌, refl, true, Option, none, some, [], ◌∷◌, Result, ok, err, if◌then◌else◌,
}
use mss_package.Common.Dict.{lookup, insert, erase}
use mss_package.Common.Fixed.{Fixed, fix, fixed, fixed_add}
use mss_package.Common.Float.{sum}
use mss_package.Common.Int.{ℤ, pos}
use mss_package.Common.Text.{Text, codes, text_eq, strip, normalize}
use mss_package.Journal.Chain.{File, genesis_sha256, verify, check_chain, is_linked, is_hashed}
use mss_package.Journal.Json.{
  Json, string, integer, floating, object, Fields, end, field, Library, ConversionError,
  type_or_value_error, as_object, get, without, is_text,
}
use mss_package.Profiles.{profiles, directional_exposure}
use mss_package.Recovery.{ShadowPortfolioRiskRecoveryResult, read_events, recover}
use mss_package.Recovery.Laws.{IsRecovered, recover_sound}
use mss_package.Recovery.Replay.{
  open_portfolio_risk_state_recovered, read_arguments, apply_event, replay,
}
use mss_package.RiskState.Examples.{euro_state}
use mss_package.RiskState.Position.{
  is_prohibited, are_prices_ordered, has_nonpositive, build_position,
}
use mss_package.RiskState.Snapshot.{snapshot}
use mss_package.RiskState.Snapshot.Sets.{has_duplicates}

-- The fields that every event of the example has.
abbrev event_of : Text → Text → Fields Fixed → Json Fixed
event_of kind id payload = object (
    field (codes "event_type") (string kind) (
      field (codes "position_id") (string id) (
        field (codes "broker_epoch") (integer (pos 1780000000)) (
          field (codes "previous_event_sha256") (string genesis_sha256) (
            field (codes "payload") (object payload)
              (field (codes "event_sha256") (string genesis_sha256) end))))))

abbrev euro_payload : Fields Fixed
euro_payload = field (codes "symbol") (string (codes "EURUSD")) (
    field (codes "direction") (string (codes "BUY")) (
      field (codes "risk_percent") (floating (fix 500)) (
        field (codes "risk_amount") (floating (fix 50000)) (
          field (codes "entry_price") (floating (fix 1100)) (
            field (codes "stop_loss") (floating (fix 1090))
              (field (codes "take_profit") (floating (fix 1120)) end))))))

-- The decoder: a line names its event.
abbrev decode : Text → Option (Json Fixed)
decode line =
    if text_eq line (codes "open P1")
    then some (event_of (codes "POSITION_OPENED") (codes "P1") euro_payload)
    else if text_eq line (codes "open P2")
    then some (event_of (codes "POSITION_OPENED") (codes "P2") euro_payload)
    else if text_eq line (codes "close P2")
    then some (event_of (codes "POSITION_CLOSED") (codes " P2") end)
    else none

abbrev shown : Option (Json Fixed) → Text
shown (some (string s)) = s
shown _ = []

abbrev encode : Json Fixed → Text
encode value = elim (as_object value) [
  | none ↦ []
  | some fs ↦ shown (get (codes "previous_event_sha256") fs)
]

abbrev float_of : Json Fixed → Result ConversionError Fixed
float_of (floating x) = ok x
float_of _ = err type_or_value_error

abbrev int_of : Json Fixed → Result ConversionError ℤ
int_of (integer n) = ok n
int_of _ = err type_or_value_error

abbrev pub stand_in : Library Fixed
stand_in = record {
  canonical_json = encode;
  loads = decode;
  sha256 = λ t. t;
  repr = λ _. [];
  to_float = float_of;
  to_int = int_of;
}

abbrev pub journal : File
journal = some (codes "open P2" ∷ codes "close P2" ∷ codes "open P1" ∷ [])

abbrev recovered_euro : ShadowPortfolioRiskRecoveryResult Fixed
recovered_euro = record {
  valid = true;
  reason = open_portfolio_risk_state_recovered;
  event_count = 3;
  open_position_count = 1;
  snapshot = some (snapshot fixed (euro_state ∷ []));
}

euro_recovered :
    recover stand_in fixed (codes "shadow_data\\live.jsonl") journal ≡ ok recovered_euro
unfolding recover read_events replay apply_event read_arguments verify check_chain is_linked
    is_hashed is_text as_object get without text_eq strip normalize lookup insert erase
    build_position is_prohibited are_prices_ordered has_nonpositive directional_exposure profiles
    snapshot has_duplicates sum fixed_add profile_of
euro_recovered = refl

recover_sound_example : IsRecovered stand_in fixed journal recovered_euro
recover_sound_example =
    recover_sound stand_in fixed (codes "shadow_data\\live.jsonl") journal recovered_euro
      euro_recovered refl
