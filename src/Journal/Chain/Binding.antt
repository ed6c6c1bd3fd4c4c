-- ===== src/Journal/Chain/Binding.antt =====
-- What a valid chain of hashes binds: its last hash fixes every event.
use mss_package.Common.{◌≡◌, Option, none, some, List, [], ◌∷◌, false}
use mss_package.Common.Text.{Text, codes, text_eq}
use mss_package.Journal.Json.{Json, string, object, Fields, Library, as_object, get, without}

module _ {N : Type 0} (L : Library N) where
  open L use {canonical_json, sha256}

  -- What is assumed of the encoding: it shows the text at the previous hash.
  abbrev pub ShowsPrevious : Type 0
  ShowsPrevious =
      (a b : Fields N) (s t : Text)
      → canonical_json (object (without (codes "event_sha256") a))
        ≡ canonical_json (object (without (codes "event_sha256") b))
      → get (codes "previous_event_sha256") a ≡ some (string s)
      → get (codes "previous_event_sha256") b ≡ some (string t)
      → s ≡ t

  -- Two texts with one hash.
  pub record Collision : Type 0 where
    pub first : Text
    pub second : Text
    pub differ : text_eq first second ≡ false
    pub collide : sha256 first ≡ sha256 second

  -- The event as it is hashed.
  abbrev pub hashed_text : Json N → Option Text
  hashed_text value = elim (as_object value) [
    | none ↦ none
    | some event ↦ some (canonical_json (object (without (codes "event_sha256") event)))
  ]

  abbrev pub SameEvents : List (Json N) → List (Json N) → Type 0
  SameEvents [] [] = Unit
  SameEvents [] (b ∷ bs) = ⊥
  SameEvents (a ∷ as') [] = ⊥
  SameEvents (a ∷ as') (b ∷ bs) = (hashed_text a ≡ hashed_text b) × SameEvents as' bs
