-- ===== src/CarryForward/Again.antt =====
-- An import that is done again.
use mss_package.CarryForward.Import.{continuity_import}
use mss_package.Common.{
  ℕ, ◌+◌, ◌≡◌, refl, ◌∙◌, sym, ap, inl, inr, Bool, true, false, Option, none, some, List, [], ◌∷◌,
  arith, Result, ok, err, Bool-cases,
}
use mss_package.Common.Dict.{lookup}
use mss_package.Common.Float.{Float}
use mss_package.Common.Text.{Text, codes, text_eq, text_eq_self, is_empty, normalize}
use mss_package.Journal.Append.{body_of, written, sealed}
use mss_package.Journal.Append.Success.{Keeps, ReadsBack, append_event-IsAppended, sealed-ShowsBody}
use mss_package.Journal.Chain.{
  JournalError, attribute_error as attribute_of_line, empty_journal_line, invalid_journal_json,
  Verification, broken, chain_valid, File, verify,
}
use mss_package.Journal.Json.{Json, string, object, Fields, Library, as_object, get, get-with_field}
use mss_package.CarryForward.{
  already_imported, CarryError, CarryArguments, file_sha256, predecessor_position_already_consumed,
}
use mss_package.CarryForward.Commit.{named, import_found, after_preflight, import_open_position}
use mss_package.CarryForward.Committed.{IsCommitted}
use mss_package.CarryForward.Events.{
  Active, active, invalid_lifecycle, no_object, active_open_events, dictionary_at, names_source,
  imports_source, is_imported,
}
use mss_package.CarryForward.Import.{Meanwhile, Import, imported_payload}
use mss_package.CarryForward.Source.{
  Source, Preflight, found, take_payload, take_event, take_active, take_events, after_current,
  after_predecessor, preflight,
}
use mss_package.Recovery.{read_lines, read_events}
use mss_package.Recovery.Replay.{event_text}

module _ {N : Type 0} (L : Library N) (a : CarryArguments) (predecessor current current' : File)
    (es' : List (Json N)) (n' : ℕ) (sha' : Text) (v' : verify L current' ≡ ok (chain_valid n' sha'))
    (r' : read_events L current' ≡ some es') where
  -- The source that is found does not depend on the current journal.
  abbrev with_events : Source N → Source N
  with_events s = record s { current_events = es' }

  take_payload-found :
      (es : List (Json N)) (event : Fields N) (p : Option (Fields N)) (s : Source N)
      → take_payload L a es event p ≡ found s
      → take_payload L a es' event p ≡ found (with_events s)
  unfolding take_payload
  take_payload-found es event none s e = ground (arith, e)
  take_payload-found es event (some payload) s e =
      elim (Bool-cases
        (text_eq (normalize (event_text L (codes "symbol") payload)) a.expected_symbol)) [
          | inr x ↦ ground (arith, x, e)
          | inl x ↦ elim (Bool-cases (is_empty (event_text L (codes "event_sha256") event))) [
            | inl y ↦ ground (arith, x, y, e)
            | inr y ↦
                let taken : Source N = record {
                  event = event;
                  payload = payload;
                  sha = event_text L (codes "event_sha256") event;
                  current_events = es;
                } in
                let same : taken ≡ s = ground (arith, x, y, e) in
                rw (x, y) (ap (λ q. found (with_events q)) same)
          ]
        ]

  take_event-found :
      (es : List (Json N)) (o : Option (Fields N)) (s : Source N)
      → take_event L a es o ≡ found s
      → take_event L a es' o ≡ found (with_events s)
  unfolding take_event
  take_event-found es none s e = ground (arith, e)
  take_event-found es (some event) s e =
      take_payload-found es event (dictionary_at L (codes "payload") event) s e

  found_of :
      (r : Result CarryError (Preflight N)) (p : Preflight N) (s : Source N)
      → r ≡ ok p
      → r ≡ ok (found s)
      → p ≡ found s
  found_of r p s e f = ground (arith, e, f)

  take_active-found :
      (es : List (Json N)) (o : Active N) (s : Source N)
      → take_active L a es o ≡ ok (found s)
      → take_active L a es' o ≡ ok (found (with_events s))
  unfolding take_active
  take_active-found es no_object s e = ground (arith, e)
  take_active-found es invalid_lifecycle s e = ground (arith, e)
  take_active-found es (active positions) s e =
      ap ok
        (take_event-found es (lookup a.expected_position_id positions) s (found_of _ _ s refl e))

  take_events-found :
      (p c : Option (List (Json N))) (s : Source N)
      → take_events L a p c ≡ ok (found s)
      → take_events L a p (some es') ≡ ok (found (with_events s))
  unfolding take_events
  take_events-found none c s e = ground (arith, e)
  take_events-found (some es) none s e = ground (arith, e)
  take_events-found (some es) (some cs) s e = take_active-found cs (active_open_events L [] es) s e

  after_current-found :
      (w : Result JournalError Verification) (s : Source N) (b : Bool)
      → after_current L a predecessor current b w ≡ ok (found s)
      → after_current L a predecessor current' b (ok (chain_valid n' sha'))
        ≡ ok (found (with_events s))
  unfolding after_current
  after_current-found (err attribute_of_line) s b e = ground (arith, e)
  after_current-found (err (empty_journal_line k)) s b e = ground (arith, e)
  after_current-found (err (invalid_journal_json k)) s b e = ground (arith, e)
  after_current-found (ok (broken reason i n)) s b e = ground (arith, e)
  after_current-found (ok (chain_valid n sha)) s false e = ground (arith, e)
  after_current-found (ok (chain_valid n sha)) s true e =
      ap (take_events L a (read_events L predecessor)) r'
      ∙ take_events-found (read_events L predecessor) (read_events L current) s e

  after_predecessor-found :
      (w : Result JournalError Verification) (s : Source N)
      → after_predecessor L a predecessor current w ≡ ok (found s)
      → after_predecessor L a predecessor current' w ≡ ok (found (with_events s))
  unfolding after_predecessor
  after_predecessor-found (err attribute_of_line) s e = ground (arith, e)
  after_predecessor-found (err (empty_journal_line k)) s e = ground (arith, e)
  after_predecessor-found (err (invalid_journal_json k)) s e = ground (arith, e)
  after_predecessor-found (ok (broken reason i n)) s e =
      ap (after_current L a predecessor current' false) v'
      ∙ after_current-found (verify L current) s false e
  after_predecessor-found (ok (chain_valid n sha)) s e =
      ap (after_current L a predecessor current' true) v'
      ∙ after_current-found (verify L current) s true e

  preflight-found :
      (is_missing : Bool) (s : Source N)
      → preflight L is_missing a predecessor current ≡ ok (found s)
      → preflight L is_missing a predecessor current' ≡ ok (found (with_events s))
  unfolding preflight
  preflight-found is_missing s e =
      let rest : after_predecessor L a predecessor current (verify L predecessor) ≡ ok (found s) =
        ground (arith, e) in
      ground (arith, e, after_predecessor-found (verify L predecessor) s rest)

module _ {N : Type 0} (L : Library N) where
  -- json reads an event back, with the dictionaries two levels down.
  pub record ReadsDeep (event read : Fields N) : Type 0 where
    pub back : ReadsBack L event read
    pub deeper :
        (key key' : Text) (fs gs : Fields N)
        → get key event ≡ some (object fs)
        → get key' fs ≡ some (object gs)
        → (fs' : Fields N) × (gs' : Fields N) × (get key read ≡ some (object fs'))
          × (get key' fs' ≡ some (object gs'))
          × Keeps gs gs'

  staged_read :
      (body event read : Fields N) (staged : File)
      → event ≡ sealed L body
      → staged ≡ written L body none
      → ReadsBack L event read
      → read_events L staged ≡ some (object read ∷ [])
  unfolding read_events read_lines
  staged_read body event read staged e f back =
      rw f (rw (sym e) (rw (back.flush, back.nonempty, back.parses) refl))

  get-imported_payload :
      (a : CarryArguments) (s : Source N) (b : Text)
      → get (codes "continuity_import") (imported_payload a s b)
        ≡ some (object (continuity_import a s b))
  unfolding imported_payload text_eq
  get-imported_payload a s b =
      get-with_field (codes "continuity_import") (codes "continuity_import")
        (object (continuity_import a s b)) s.payload

  continuity_sha :
      (a : CarryArguments) (s : Source N) (b : Text)
      → get (codes "source_event_sha256") (continuity_import a s b) ≡ some (string s.sha)
  unfolding continuity_import get text_eq
  continuity_sha a s b = refl

  continuity_id :
      (a : CarryArguments) (s : Source N) (b : Text)
      → get (codes "source_position_id") (continuity_import a s b)
        ≡ some (string a.expected_position_id)
  unfolding continuity_import get text_eq
  continuity_id a s b = refl

  read_imported :
      (a : CarryArguments) (s : Source N) (b : Text) (event read : Fields N)
      → get (codes "payload") event ≡ some (object (imported_payload a s b))
      → ReadsDeep event read
      → is_imported L s.sha a.expected_position_id (object read ∷ []) ≡ true
  unfolding is_imported imports_source names_source as_object
  read_imported a s b event read p deep =
      let (fs, gs, at_payload, at_continuity, keeps) =
        deep.deeper (codes "payload") (codes "continuity_import") (imported_payload a s b)
          (continuity_import a s b) p (get-imported_payload a s b) in
      rw
        (
          at_payload,
          at_continuity,
          keeps.texts (codes "source_event_sha256") s.sha (continuity_sha a s b),
          keeps.texts (codes "source_position_id") a.expected_position_id (continuity_id a s b),
          text_eq_self s.sha,
          text_eq_self a.expected_position_id,
        )
        refl

module _ {N : Type 0} (L : Library N) (F : Float N) (bytes_sha256 : List Text → Text)
    (staging_path : Text) (a : CarryArguments) (m : Meanwhile) (predecessor current : File) where
  -- Once an import has replaced the current journal by the staged one, and json reads its event
  -- back, another import of the same predecessor writes nothing and reports it as imported already,
  -- as long as the predecessor stays as it is.
  pub import_again :
      (out : Import) (c : IsCommitted L F bytes_sha256 staging_path a m predecessor current out)
      (read : Fields N) (m' : Meanwhile)
      → ReadsDeep L c.event read
      → file_sha256 bytes_sha256 m'.predecessor_then ≡ file_sha256 bytes_sha256 predecessor
      → import_open_position L F bytes_sha256 staging_path a m' predecessor c.staged ≡ (
        ok (
            named bytes_sha256 a m' c.source.sha
              (file_sha256 bytes_sha256 predecessor)
              true
              already_imported
              predecessor_position_already_consumed
              []
              (file_sha256 bytes_sha256 m'.predecessor_then)),
        c.staged,
      )
  unfolding import_open_position after_preflight import_found
  import_again out c read m' deep same =
      let hash = file_sha256 bytes_sha256 predecessor in
      let payload = imported_payload a c.source hash in
      let i =
        append_event-IsAppended L (codes "POSITION_OPENED") a.expected_position_id c.broker_epoch
          payload c.event none c.staged c.appended in
      let body =
        body_of (i.count + 1) i.sha (codes "POSITION_OPENED") a.expected_position_id c.broker_epoch
          payload in
      let events = staged_read L body c.event read c.staged i.event_is i.file_is deep.back in
      let shows =
        sealed-ShowsBody L (i.count + 1) i.sha (codes "POSITION_OPENED") a.expected_position_id
          c.broker_epoch payload in
      let at_payload : get (codes "payload") c.event ≡ some (object payload) =
        ap (get (codes "payload")) i.event_is ∙ shows.payload_of in
      let known = read_imported L a c.source hash c.event read at_payload deep in
      let f =
        preflight-found L a predecessor current c.staged (object read ∷ []) i.count' i.sha'
          i.verified' events (is_empty hash) c.source c.source_found in
      let unchanged : text_eq (file_sha256 bytes_sha256 m'.predecessor_then) hash ≡ true =
        rw same (text_eq_self hash) in
      rw f (rw (known, unchanged) refl)
