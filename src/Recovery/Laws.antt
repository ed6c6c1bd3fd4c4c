-- ===== src/Recovery/Laws.antt =====
-- What a recovery returns: exactly the positions that the journal leaves open, each sound.
use mss_package.Journal.Chain.{
  JournalError, attribute_error, empty_journal_line, invalid_journal_json,
}
use mss_package.Journal.Chain.Laws.{Verification-cases}
use mss_package.RiskState.Snapshot.{ids_of}
use mss_package.Common.{◌⊎◌}
use mss_package.Recovery.Replay.{RecoveryReason, Escape}
use mss_package.Common.{
  ℕ, ◌≡◌, refl, ◌∙◌, ap, sym, true, false, some, List, [], ◌∷◌, arith, All, inl, inr, ok, err,
  length, Bool-cases, Option-cases, Result-cases,
}
use mss_package.Common.Dict.{Dict, lookup, has_key, insert, erase}
use mss_package.Common.Float.{Float}
use mss_package.Common.Text.{Text, codes, text_eq, strip, strip_idem}
use mss_package.Journal.Chain.{chain_valid, File, verify}
use mss_package.Journal.Json.{Json, Fields, Library, as_object, get, object, end}
use mss_package.Recovery.{
  ShadowPortfolioRiskRecoveryResult, values_of, read_events, conclude, recover_events,
  recover_verified, recover,
}
use mss_package.Recovery.Keys.{
  keys_of, insert-Distinct, erase-Distinct, has_key-erase, has_key-insert, insert-All, erase-All,
}
use mss_package.Recovery.OpenIds.{open_by, open_after}
use mss_package.Recovery.Replay.{
  Outcome, proceed, stop, escape, event_type, event_id, read_arguments, or_else, apply_event,
  replay,
}
use mss_package.RiskState.Position.{ShadowPortfolioPositionState, PositionArguments, build_position}
use mss_package.RiskState.Position.Laws.{IsSound, build_position-IsSound, build_position_id}
use mss_package.RiskState.Snapshot.{snapshot}
use mss_package.RiskState.Snapshot.Sets.{Distinct}

module _ {N : Type 0} (F : Float N) where
  -- A sound state under its own identifier.
  abbrev pub IsEntry : Text × ShadowPortfolioPositionState N → Type 0
  IsEntry e = (e.1.position_id ≡ e.0) × IsSound F e.1

  -- The open positions between two events.
  pub record IsBook (d : Dict (ShadowPortfolioPositionState N)) : Type 0 where
    pub keys : Distinct (keys_of d)
    pub entries : All IsEntry d

Outcome-cases :
    {N : Type 0} (o : Outcome N)
    → ((d : Dict (ShadowPortfolioPositionState N)) × (o ≡ proceed d))
      ⊎ (((why : RecoveryReason) × (n : ℕ) × (o ≡ stop why n)) ⊎ ((e : Escape) × (o ≡ escape e)))
Outcome-cases (proceed d) = inl (d, refl)
Outcome-cases (stop why n) = inr (inl (why, n, refl))
Outcome-cases (escape e) = inr (inr (e, refl))

module _ {N : Type 0} (L : Library N) (F : Float N) where
  -- How an event that is accepted changes the positions.
  data Change (event : Fields N) (d d' : Dict (ShadowPortfolioPositionState N)) : Type 0 where
    opened :
        (a : PositionArguments N) (s : ShadowPortfolioPositionState N)
        → a.position_id ≡ event_id L event
        → build_position F a ≡ some s
        → text_eq (event_type L event) (codes "POSITION_OPENED") ≡ true
        → has_key (event_id L event) d ≡ false
        → d' ≡ insert (event_id L event) s d
        → Change event d d'
    closed :
        text_eq (event_type L event) (codes "POSITION_OPENED") ≡ false
        → has_key (event_id L event) d ≡ true
        → d' ≡ erase (event_id L event) d
        → Change event d d'

  read_arguments_id :
      (id path : Text) (event : Fields N) (payload : Json N) {a : PositionArguments N}
      → read_arguments L id path event payload ≡ ok a
      → a.position_id ≡ id
  unfolding read_arguments
  read_arguments_id id path event payload h = ground arith

  apply_event-Change :
      (path : Text) (d : Dict (ShadowPortfolioPositionState N)) (event : Fields N)
      {d' : Dict (ShadowPortfolioPositionState N)}
      → apply_event L F path d event ≡ proceed d'
      → Change event d d'
  unfolding apply_event
  apply_event-Change path d event h =
      let id = event_id L event in
      let payload = or_else (get (codes "payload") event) (object end) in
      elim (Bool-cases (text_eq (event_type L event) (codes "POSITION_OPENED"))) [
        | inr p ↦ closed p (ground (arith, p)) (ground (arith, p))
        | inl p ↦ elim (Result-cases (read_arguments L id path event payload)) [
          | inr (e, q) ↦ ground (arith, p, q)
          | inl (a, q) ↦ elim (Option-cases (build_position F a)) [
            | inl r ↦ ground (arith, p, q, r)
            | inr (s, r) ↦
                opened a s (read_arguments_id id path event payload q) r p (ground (arith, p, q, r))
                  (ground (arith, p, q, r))
          ]
        ]
      ]

  Change-IsBook :
      (event : Fields N) (d d' : Dict (ShadowPortfolioPositionState N))
      → event_id L event ≡ strip (event_id L event)
      → Change event d d'
      → IsBook F d
      → IsBook F d'
  Change-IsBook event d d' trimmed (opened a s named built kind fresh same) b =
      let here : s.position_id ≡ event_id L event =
        build_position_id F a built ∙ ap strip named ∙ sym trimmed in
      rw same (record {
        keys = insert-Distinct (event_id L event) s d b.keys;
        entries =
            insert-All (IsEntry F) (event_id L event) s d (here, build_position-IsSound F a s built)
              b.entries;
      })
  Change-IsBook event d d' trimmed (closed kind known same) b = rw same (record {
    keys = erase-Distinct (event_id L event) d b.keys;
    entries = erase-All (IsEntry F) (event_id L event) d b.entries;
  })

  Change-open_by :
      (id : Text) (event : Fields N) (d d' : Dict (ShadowPortfolioPositionState N))
      → Distinct (keys_of d)
      → Change event d d'
      → has_key id d' ≡ open_by L id (has_key id d) event
  Change-open_by id event d d' keys (opened a s named built kind fresh same) =
      rw (same, kind) (has_key-insert (event_id L event) id s d)
  Change-open_by id event d d' keys (closed kind known same) =
      rw (same, kind) (has_key-erase (event_id L event) id d keys)

  -- The loop keeps the book, and leaves open what its events leave open.
  replay_sound :
      (path : Text) (events : List (Json N)) (d : Dict (ShadowPortfolioPositionState N))
      {d' : Dict (ShadowPortfolioPositionState N)}
      → IsBook F d
      → replay L F path d events ≡ proceed d'
      → IsBook F d' × ((id : Text) → has_key id d' ≡ open_after L id (has_key id d) events)
  unfolding replay
  replay_sound path [] d {d'} b h =
      let same : d' ≡ d = ground arith in (rw same b, λ id. rw same refl)
  replay_sound path (value ∷ events) d {d'} b h = elim (Option-cases (as_object value)) [
    | inl q ↦ ground (arith, q)
    | inr (event, q) ↦ elim (Outcome-cases (apply_event L F path d event)) [
      | inr (inl (why, n, r)) ↦ ground (arith, q, r)
      | inr (inr (e, r)) ↦ ground (arith, q, r)
      | inl (next, r) ↦
          let change = apply_event-Change path d event r in
          let book = Change-IsBook event d next (sym (strip_idem _)) change b in
          let (final, ids) = replay_sound path events next {d' = d'} book (ground (arith, q, r)) in
          (final, λ id. ground (arith, q, ids id, Change-open_by id event d next b.keys change))
    ]
  ]

  ids_of_entries :
      (d : Dict (ShadowPortfolioPositionState N))
      → All (IsEntry F) d
      → ids_of (values_of d) ≡ keys_of d
  ids_of_entries [] h = refl
  ids_of_entries ((k, s) ∷ d) h = ground (arith, h.0.0, ids_of_entries d h.1)

  IsSound-values :
      (d : Dict (ShadowPortfolioPositionState N))
      → All (IsEntry F) d
      → All (IsSound F) (values_of d)
  IsSound-values [] h = tt
  IsSound-values (e ∷ d) h = (h.0.1, IsSound-values d h.1)

  -- What a valid result is made of: the events of the file, and the positions that they leave open.
  pub record IsRecovered (file : File) (r : ShadowPortfolioRiskRecoveryResult N) : Type 0 where
    pub events : List (Json N)
    pub read : read_events L file ≡ some events
    pub intact : (n : ℕ) × (sha : Text) × (verify L file ≡ ok (chain_valid n sha))
    pub book : Dict (ShadowPortfolioPositionState N)
    pub shown : r.snapshot ≡ some (snapshot F (values_of book))
    pub shown_valid : (snapshot F (values_of book)).valid ≡ true
    pub sound : All (IsSound F) (values_of book)
    pub identifiers : ids_of (values_of book) ≡ keys_of book
    pub distinct : Distinct (keys_of book)
    pub open_ids : (id : Text) → has_key id book ≡ open_after L id false events
    pub counts : (r.event_count ≡ length events) × (r.open_position_count ≡ length book)

  recover_events-cases :
      (path : Text) (events : List (Json N)) {r : ShadowPortfolioRiskRecoveryResult N}
      → recover_events L F path (some events) ≡ ok r
      → r.valid ≡ true
      → (d : Dict (ShadowPortfolioPositionState N)) × (replay L F path [] events ≡ proceed d)
        × (r ≡ conclude F (length events) d)
  unfolding recover_events
  recover_events-cases path events {r} h v = elim (Outcome-cases (replay L F path [] events)) [
    | inl (d, q) ↦ (d, q, ground (arith, q))
    | inr (inl (why, n, q)) ↦ ground (arith, q)
    | inr (inr (e, q)) ↦ ground (arith, q)
  ]

  recovered :
      (path : Text) (file : File) (events : List (Json N)) {r : ShadowPortfolioRiskRecoveryResult N}
      {n : ℕ} {sha : Text}
      → verify L file ≡ ok (chain_valid n sha)
      → read_events L file ≡ some events
      → recover_events L F path (some events) ≡ ok r
      → r.valid ≡ true
      → IsRecovered file r
  unfolding conclude lookup
  recovered path file events {r} {n} {sha} intact read h v =
      let (d, run, same) = recover_events-cases path events h v in
      let (book, ids) = replay_sound path events [] (record { keys = tt; entries = tt }) run in
      record {
        events = events;
        read = read;
        intact = (n, sha, intact);
        book = d;
        shown = ground arith;
        shown_valid = ground arith;
        sound = IsSound-values d book.entries;
        identifiers = ids_of_entries d book.entries;
        distinct = book.keys;
        open_ids = ids;
        counts = ground arith;
      }

  unreadable_invalid :
      (path : Text) (file : File) (e : JournalError) {r : ShadowPortfolioRiskRecoveryResult N}
      → recover_verified L F path file (err e) ≡ ok r
      → ¬ (r.valid ≡ true)
  unfolding recover_verified
  unreadable_invalid path file attribute_error h v = ground arith
  unreadable_invalid path file (empty_journal_line n) h v = ground arith
  unreadable_invalid path file (invalid_journal_json n) h v = ground arith

  -- A recovery that is valid has verified the chain of hashes; its snapshot is a valid one, of
  -- sound states under distinct identifiers, and an identifier is among them exactly if its last
  -- event in the journal opens it.
  pub recover_sound :
      (path : Text) (file : File) (r : ShadowPortfolioRiskRecoveryResult N)
      → recover L F path file ≡ ok r
      → r.valid ≡ true
      → IsRecovered file r
  unfolding recover
  recover_sound path file r h v = elim (Result-cases (verify L file)) [
    | inr (e, q) ↦ absurd (unreadable_invalid path file e {r = r} (ground (arith, q)) v)
    | inl (checked, q) ↦ elim (Verification-cases checked) [
      | inl (reason, i, n, p) ↦ ground (arith, q, p)
      | inr (n, sha, p) ↦ elim (Option-cases (read_events L file)) [
        | inl s ↦ ground (arith, q, p, s)
        | inr (events, s) ↦
            recovered path file events {r = r} (q ∙ ap ok p) s (ground (arith, q, p, s)) v
      ]
    ]
  ]
