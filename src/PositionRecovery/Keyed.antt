-- ===== src/PositionRecovery/Keyed.antt =====
-- The open positions are kept under their own identifiers.
use mss_package.PositionRecovery.Events.{OpenedFields, position_of}
use mss_package.Common.{
  ◌≡◌, refl, sym, List, [], ◌∷◌, arith, Result, ok, err, All, Bool-cases, Option-cases, inl, inr,
}
use mss_package.Common.Dict.{Dict, insert, erase}
use mss_package.Common.Float.{Float}
use mss_package.Common.Text.{Text, codes, text_eq, text_eq_iff, is_empty}
use mss_package.Journal.Json.{
  Json, object, Fields, end, Library, ConversionError, type_or_value_error, overflow_error,
  as_object, get,
}
use mss_package.PositionRecovery.Events.{
  Outcome, proceed, invalid_event, escape, read_fields, open_with, apply_event, replay,
}
use mss_package.PositionRecovery.Laws.{Outcome-cases}
use mss_package.Recovery.Replay.{event_text, event_type, or_else}
use mss_package.VirtualPosition.Engine.{VirtualPosition}

module _ {N : Type 0} where
  abbrev pub IsKeyed : Dict (VirtualPosition N) → Type 0
  IsKeyed = All (λ e. e.0 ≡ e.1.position_id)

  insert-IsKeyed :
      (k : Text) (p : VirtualPosition N) (d : Dict (VirtualPosition N))
      → p.position_id ≡ k
      → IsKeyed d
      → IsKeyed (insert k p d)
  unfolding insert
  insert-IsKeyed k p [] e h = (sym e, tt)
  insert-IsKeyed k p ((j, q) ∷ d) e h = elim (Bool-cases (text_eq j k)) [
    | inl s ↦ rw s (cc ((text_eq_iff j k).0 s, e), h.1)
    | inr s ↦ rw s (h.0, insert-IsKeyed k p d e h.1)
  ]

  erase-IsKeyed : (k : Text) (d : Dict (VirtualPosition N)) → IsKeyed d → IsKeyed (erase k d)
  unfolding erase
  erase-IsKeyed k [] h = tt
  erase-IsKeyed k ((j, q) ∷ d) h = elim (Bool-cases (text_eq j k)) [
    | inl s ↦ rw s h.1
    | inr s ↦ rw s (h.0, erase-IsKeyed k d h.1)
  ]

module _ {N : Type 0} (L : Library N) (F : Float N) where
  abbrev IsKeyedOutcome : Outcome N → Type 0
  IsKeyedOutcome (proceed d) = IsKeyed d
  IsKeyedOutcome invalid_event = Unit
  IsKeyedOutcome (escape _) = Unit

  open_with-IsKeyed :
      (id : Text) (d : Dict (VirtualPosition N)) (r : Result ConversionError (OpenedFields N))
      → IsKeyed d
      → IsKeyedOutcome (open_with L F id d r)
  unfolding open_with
  open_with-IsKeyed id d (ok fields) h = insert-IsKeyed id (position_of F id fields) d refl h
  open_with-IsKeyed id d (err type_or_value_error) h = tt
  open_with-IsKeyed id d (err overflow_error) h = tt

  apply_event-IsKeyed :
      (d : Dict (VirtualPosition N)) (event : Fields N)
      → IsKeyed d
      → IsKeyedOutcome (apply_event L F d event)
  unfolding apply_event
  apply_event-IsKeyed d event h =
      let id = event_text L (codes "position_id") event in
      let payload = or_else (get (codes "payload") event) (object end) in
      elim (Bool-cases (is_empty id)) [
        | inl q ↦ rw q h
        | inr q ↦ elim (Bool-cases (text_eq (event_type L event) (codes "POSITION_OPENED"))) [
          | inl o ↦ rw (q, o) (open_with-IsKeyed id d (read_fields L F event payload) h)
          | inr o ↦ elim (Bool-cases (text_eq (event_type L event) (codes "POSITION_CLOSED"))) [
            | inl c ↦ rw (q, o, c) (erase-IsKeyed id d h)
            | inr c ↦ rw (q, o, c) h
          ]
        ]
      ]

  pub replay-IsKeyed :
      (d d' : Dict (VirtualPosition N)) (es : List (Json N))
      → IsKeyed d
      → replay L F d es ≡ proceed d'
      → IsKeyed d'
  unfolding replay
  replay-IsKeyed d d' [] h e = let same : d ≡ d' = ground (arith, e) in rw (sym same) h
  replay-IsKeyed d d' (value ∷ es) h e = elim (Option-cases (as_object value)) [
    | inl q ↦ ground (arith, q, e)
    | inr (event, q) ↦ elim (Outcome-cases (apply_event L F d event)) [
      | inl (next, o) ↦
          replay-IsKeyed next d' es (rw o at (apply_event-IsKeyed d event h))
            (ground (arith, q, o, e))
      | inr (inl o) ↦ ground (arith, q, o, e)
      | inr (inr (x, o)) ↦ ground (arith, q, o, e)
    ]
  ]
