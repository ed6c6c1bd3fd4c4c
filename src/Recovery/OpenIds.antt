-- ===== src/Recovery/OpenIds.antt =====
-- Which positions a journal leaves open, without the dictionary: those whose last event opens them.
use mss_package.Common.{Bool, none, some, List, [], ◌∷◌, if◌then◌else◌}
use mss_package.Common.Text.{Text, codes, text_eq}
use mss_package.Journal.Json.{Json, Fields, Library, as_object}
use mss_package.Recovery.Replay.{event_type, event_id}

module _ {N : Type 0} (L : Library N) where
  -- Whether the identifier is open after one event.
  abbrev pub open_by : Text → Bool → Fields N → Bool
  open_by id before event =
      if text_eq (event_id L event) id
      then text_eq (event_type L event) (codes "POSITION_OPENED")
      else before

  -- Whether the identifier is open after the events.
  abbrev pub open_after : Text → Bool → List (Json N) → Bool
  open_after id before [] = before
  open_after id before (value ∷ events) = elim (as_object value) [
    | none ↦ open_after id before events
    | some event ↦ open_after id (open_by id before event) events
  ]
