-- ===== src/CarryForward/Events.antt =====
-- The events of the two journals in src/mss/analysis/shadow_portfolio_carry_forward.py.
use mss_package.Common.{Bool, false, ◌&&◌, ◌||◌, Option, none, some, List, [], ◌∷◌, if◌then◌else◌}
use mss_package.Common.Dict.{Dict, has_key, insert, erase}
use mss_package.Common.Text.{Text, codes, text_eq, is_empty}
use mss_package.Journal.Json.{Json, object, Fields, end, Library, as_object, get}
use mss_package.Recovery.Replay.{or_else, event_text, event_type, event_id}

-- The loop goes on with the open positions, or ends with `None`, or with an `AttributeError`.
pub data Active (N : Type 0) : Type 0 where
  active : Dict (Fields N) → Active N
  invalid_lifecycle : Active N
  no_object : Active N

module _ {N : Type 0} (L : Library N) where
  -- One round of the loop.
  unfoldable pub active_after : Dict (Fields N) → Fields N → Active N
  active_after positions event =
      let id = event_id L event in
      if is_empty id
      then invalid_lifecycle
      else if text_eq (event_type L event) (codes "POSITION_OPENED")
      then (if has_key id positions then invalid_lifecycle else active (insert id event positions))
      else if text_eq (event_type L event) (codes "POSITION_CLOSED")
      then (if has_key id positions then active (erase id positions) else invalid_lifecycle)
      else invalid_lifecycle

  -- `_active_open_events`
  unfoldable pub active_open_events : Dict (Fields N) → List (Json N) → Active N
  active_open_events positions [] = active positions
  active_open_events positions (value ∷ events) = elim (as_object value) [
    | none ↦ no_object
    | some event ↦ elim (active_after positions event) [
      | active next ↦ active_open_events next events
      | invalid_lifecycle ↦ invalid_lifecycle
      | no_object ↦ no_object
    ]
  ]

  -- Whether an item of a dictionary is a dictionary, which it also is where it is missing.
  abbrev pub dictionary_at : Text → Fields N → Option (Fields N)
  dictionary_at key fs = as_object (or_else (get key fs) (object end))

  -- Whether the entry `continuity_import` names the source.
  unfoldable pub names_source : Text → Text → Option (Fields N) → Bool
  names_source sha id none = false
  names_source sha id (some continuity) =
      text_eq (event_text L (codes "source_event_sha256") continuity) sha
      && text_eq (event_text L (codes "source_position_id") continuity) id

  unfoldable pub imports_source : Text → Text → Option (Fields N) → Bool
  unfolding names_source
  imports_source sha id none = false
  imports_source sha id (some payload) =
      names_source sha id (dictionary_at (codes "continuity_import") payload)

  -- `_already_imported`; a line that holds no object has been refused before.
  unfoldable pub is_imported : Text → Text → List (Json N) → Bool
  unfolding imports_source
  is_imported sha id [] = false
  is_imported sha id (value ∷ events) =
      imports_source sha id (dictionary_at (codes "payload") (or_else (as_object value) end))
      || is_imported sha id events
