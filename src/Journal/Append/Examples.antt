-- ===== src/Journal/Append/Examples.antt =====
-- The journal with small stand-ins for the encoder and the hash.
use mss_package.Journal.Json.{with_field}
use mss_package.Common.{◌+◌, ◌≡◌, refl, Option, none, some, [], ◌∷◌, ok, err}
use mss_package.Common.Fixed.{Fixed}
use mss_package.Common.Int.{pos}
use mss_package.Common.Text.{Text, codes, text_eq}
use mss_package.Journal.Json.{
  Json, string, object, Fields, end, field, Library, overflow_error, get, without, as_object,
}
use mss_package.Journal.Chain.{File, chain_valid, genesis_sha256, verify, check_chain}
use mss_package.Journal.Append.{body_of, body_sha, sealed, written, append_event}
use mss_package.Journal.Append.Laws.{
  RoundTrips, append_event_succeeds, append_event_writes, WritesOneOrNone,
}

abbrev first_body : Fields Fixed
first_body =
    body_of (0 + 1) genesis_sha256 (codes "POSITION_OPENED") (codes "P1") (pos 1780000000)
      (field (codes "symbol") (string (codes "EURUSD")) end)

-- An encoder that tells an event from its body, and the decoder for that one event.
abbrev label : Option (Json Fixed) → Text
label none = codes "body"
label (some _) = codes "event"

abbrev encode : Json Fixed → Text
encode value = elim (as_object value) [
  | none ↦ []
  | some fs ↦ label (get (codes "event_sha256") fs)
]

abbrev stand_in : Library Fixed
stand_in = record {
  canonical_json = encode;
  loads = λ _. some (
      object (
        field (codes "previous_event_sha256") (string genesis_sha256)
          (field (codes "event_sha256") (string (codes "body")) end)));
  sha256 = λ t. t;
  repr = λ _. [];
  to_float = λ _. err overflow_error;
  to_int = λ _. err overflow_error;
}

-- The decoder for the event of `first_body`.
abbrev reading : Library Fixed
reading = record stand_in { loads = λ _. some (object (sealed stand_in first_body)) }

first-RoundTrips : RoundTrips reading (sealed reading first_body) (sealed reading first_body)
unfolding body_of get without with_field as_object text_eq
first-RoundTrips = record { parses = refl; nonempty = refl; texts = λ key t h. h; same_body = refl }

append_event_succeeds_example :
    (append_event reading
        (codes "POSITION_OPENED")
        (codes "P1")
        (pos 1780000000)
        (field (codes "symbol") (string (codes "EURUSD")) end)
        none
      ≡ (ok (sealed reading first_body), written reading first_body none))
    × (verify reading (written reading first_body none)
        ≡ ok (chain_valid (0 + 1) (body_sha reading first_body)))
unfolding verify check_chain
append_event_succeeds_example =
    append_event_succeeds reading (codes "POSITION_OPENED") (codes "P1") (pos 1780000000)
      (field (codes "symbol") (string (codes "EURUSD")) end) (sealed reading first_body) none 0
      genesis_sha256 refl refl refl first-RoundTrips

-- An encoder that shows the previous hash.
abbrev shown : Option (Json Fixed) → Text
shown (some (string s)) = s
shown _ = []

abbrev encode_previous : Json Fixed → Text
encode_previous value = elim (as_object value) [
  | none ↦ []
  | some fs ↦ shown (get (codes "previous_event_sha256") fs)
]

abbrev showing : Library Fixed
showing = record stand_in {
  canonical_json = encode_previous;
  loads = λ _. some (
      object (
        field (codes "previous_event_sha256") (string genesis_sha256)
          (field (codes "event_sha256") (string genesis_sha256) end)));
}

abbrev one_line : File
one_line = some (codes "first" ∷ [])

abbrev other_line : File
other_line = some (codes "again" ∷ [])

append_event_writes_example :
    WritesOneOrNone showing
      (codes "POSITION_OPENED")
      (codes "P2")
      (pos 1780000000)
      end
      one_line
      (append_event showing (codes "POSITION_OPENED") (codes "P2") (pos 1780000000) end one_line)
append_event_writes_example =
    append_event_writes showing (codes "POSITION_OPENED") (codes "P2") (pos 1780000000) end one_line
