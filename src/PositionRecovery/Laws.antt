-- ===== src/PositionRecovery/Laws.antt =====
-- What a recovery that succeeds has read, and one more event.
use mss_package.Common.{◌⊎◌}
use mss_package.PositionRecovery.Events.{EventEscape}
use mss_package.Common.{
  ℕ, ◌+◌, ◌≡◌, refl, true, false, Option, none, some, List, [], ◌∷◌, ◌++◌, arith, Result, ok, err,
  Option-cases, inl, inr, length, length-append,
}
use mss_package.Common.Dict.{Dict}
use mss_package.Common.Float.{Float}
use mss_package.Common.Text.{Text, is_empty, strip}
use mss_package.Journal.Append.{written, sealed}
use mss_package.Journal.Append.Success.{ReadsBack}
use mss_package.Journal.Chain.{
  JournalError, File, lines_of, Verification, broken, chain_valid, verify,
}
use mss_package.Journal.Json.{Json, object, Fields, Library, as_object}
use mss_package.PositionRecovery.{
  ShadowPositionRecoveryResult, conclude, after_replay, recover_events, recover_verified, recover,
}
use mss_package.PositionRecovery.Events.{
  Outcome, proceed, invalid_event, escape, apply_event, replay,
}
use mss_package.Recovery.{read_lines, read_events}
use mss_package.VirtualPosition.Engine.{VirtualPosition}

pub Outcome-cases :
    {N : Type 0} (o : Outcome N)
    → ((d : Dict (VirtualPosition N)) × (o ≡ proceed d))
      ⊎ ((o ≡ invalid_event) ⊎ ((x : EventEscape) × (o ≡ escape x)))
Outcome-cases (proceed d) = inl (d, refl)
Outcome-cases invalid_event = inr (inl refl)
Outcome-cases (escape x) = inr (inr (x, refl))

module _ {N : Type 0} (L : Library N) (F : Float N) where
  open L use {loads, canonical_json}

  -- A successful run of the recovery.
  pub record IsRead (file : File) (r : ShadowPositionRecoveryResult N) : Type 0 where
    pub events : List (Json N)
    pub read : read_events L file ≡ some events
    pub positions : Dict (VirtualPosition N)
    pub replayed : replay L F [] events ≡ proceed positions
    pub result : r ≡ conclude (length events) positions

  after_replay_valid :
      (n : ℕ) (o : Outcome N) (r : ShadowPositionRecoveryResult N)
      → after_replay n o ≡ ok r
      → r.valid ≡ true
      → (d : Dict (VirtualPosition N)) × (o ≡ proceed d) × (r ≡ conclude n d)
  unfolding after_replay
  after_replay_valid n (proceed d) r e v = (d, refl, ground (arith, e))
  after_replay_valid n invalid_event r e v = ground (arith, e, v)
  after_replay_valid n (escape x) r e v = ground (arith, e)

  recover_events_valid :
      (file : File) (es : Option (List (Json N))) (r : ShadowPositionRecoveryResult N)
      → read_events L file ≡ es
      → recover_events L F es ≡ ok r
      → r.valid ≡ true
      → IsRead file r
  unfolding recover_events
  recover_events_valid file none r q e v = ground (arith, e)
  recover_events_valid file (some es) r q e v =
      let (d, o, same) = after_replay_valid (length es) (replay L F [] es) r e v in
      record { events = es; read = q; positions = d; replayed = o; result = same }

  recover_verified_valid :
      (file : File) (w : Result JournalError Verification) (r : ShadowPositionRecoveryResult N)
      → recover_verified L F file w ≡ ok r
      → r.valid ≡ true
      → IsRead file r
  unfolding recover_verified
  recover_verified_valid file (err x) r e v = ground (arith, e)
  recover_verified_valid file (ok (broken x i n)) r e v = ground (arith, e, v)
  recover_verified_valid file (ok (chain_valid n sha)) r e v =
      recover_events_valid file (read_events L file) r refl e v

  pub recover-IsRead :
      (file : File) (r : ShadowPositionRecoveryResult N)
      → recover L F file ≡ ok r
      → r.valid ≡ true
      → IsRead file r
  unfolding recover
  recover-IsRead file r e v = recover_verified_valid file (verify L file) r e v

  read_lines-append :
      (lines : List Text) (line : Text) (value : Json N) (es : List (Json N))
      → read_lines L lines ≡ some es
      → strip line ≡ line
      → is_empty line ≡ false
      → loads line ≡ some value
      → read_lines L (lines ++ line ∷ []) ≡ some (es ++ value ∷ [])
  unfolding read_lines
  read_lines-append [] line value es e f n p = rw (f, n, p) (ground (arith, e))
  read_lines-append (first ∷ lines) line value es e f n p =
      elim (Option-cases (read_lines L lines)) [
        | inl q ↦ elim (Option-cases (loads (strip first))) [
          | inl l ↦ ground (arith, q, l, e)
          | inr (v, l) ↦ ground (arith, q, l, e)
        ]
        | inr (rest, q) ↦ ground (arith, q, e, read_lines-append lines line value rest q f n p)
      ]

  replay-append :
      (d d' d'' : Dict (VirtualPosition N)) (es : List (Json N)) (read : Fields N)
      → replay L F d es ≡ proceed d'
      → apply_event L F d' read ≡ proceed d''
      → replay L F d (es ++ object read ∷ []) ≡ proceed d''
  unfolding replay as_object
  replay-append d d' d'' [] read e p = ground (arith, e, p)
  replay-append d d' d'' (value ∷ es) read e p = elim (Option-cases (as_object value)) [
    | inl q ↦ ground (arith, q, e)
    | inr (event, q) ↦ elim (Outcome-cases (apply_event L F d event)) [
      | inl (next, o) ↦
          ground (arith, q, o, e, p, replay-append next d' d'' es read (ground (arith, q, o, e)) p)
      | inr (inl o) ↦ ground (arith, q, o, e)
      | inr (inr (x, o)) ↦ ground (arith, q, o, e)
    ]
  ]

  read_file :
      (file : File) (es : List (Json N))
      → read_events L file ≡ some es
      → read_lines L (lines_of file) ≡ some es
  unfolding read_events
  read_file none es e = e
  read_file (some lines) es e = e

  -- A recovery after one more event.
  pub recover-append :
      (file : File) (r : ShadowPositionRecoveryResult N) (i : IsRead file r) (body read : Fields N)
      (d : Dict (VirtualPosition N)) (n : ℕ) (sha : Text)
      → verify L (written L body file) ≡ ok (chain_valid n sha)
      → ReadsBack L (sealed L body) read
      → apply_event L F i.positions read ≡ proceed d
      → recover L F (written L body file) ≡ ok (conclude (length i.events + 1) d)
  unfolding recover recover_verified recover_events after_replay read_events
  recover-append file r i body read d n sha v back p =
      let line = canonical_json (object (sealed L body)) in
      let events : read_events L (written L body file) ≡ some (i.events ++ object read ∷ []) =
        read_lines-append (lines_of file) line (object read) i.events
          (read_file file i.events i.read) back.flush back.nonempty back.parses in
      let counted : length (i.events ++ object read ∷ []) ≡ length i.events + 1 =
        omega (arith, length-append i.events (object read ∷ [])) in
      let run = replay-append [] i.positions d i.events read i.replayed p in
      ground (arith, v, events, run, counted)
