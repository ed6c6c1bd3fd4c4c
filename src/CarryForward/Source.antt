-- ===== src/CarryForward/Source.antt =====
-- The checks that `inspect_consumption` and `import_open_position` of
-- src/mss/analysis/shadow_portfolio_carry_forward.py begin with, line by line the same.
use mss_package.Common.{
  Bool, true, false, not, ◌||◌, Option, none, some, List, [], Result, ok, err, if◌then◌else◌,
}
use mss_package.Common.Dict.{lookup}
use mss_package.Common.Text.{Text, codes, text_eq, is_empty, normalize}
use mss_package.Journal.Chain.{
  JournalError, attribute_error as attribute_of_line, empty_journal_line, invalid_journal_json,
  Verification, broken, chain_valid, File, verify,
}
use mss_package.Journal.Json.{Json, Fields, Library}
use mss_package.CarryForward.{
  CarryReason, expected_position_identity_required, source_target_journal_collision,
  prohibited_journal_path, predecessor_journal_not_found, journal_integrity_check_failed,
  predecessor_journal_integrity_failure, current_journal_integrity_failure, journal_read_failure,
  invalid_predecessor_lifecycle, expected_predecessor_position_not_open,
  invalid_predecessor_open_payload, predecessor_symbol_mismatch, source_event_hash_missing,
  CarryError, attribute_error, CarryArguments,
}
use mss_package.CarryForward.Events.{
  Active, active, invalid_lifecycle, no_object, active_open_events, dictionary_at,
}
use mss_package.Recovery.{read_events}
use mss_package.Recovery.Replay.{event_text}
use mss_package.RiskState.Position.{is_prohibited}

-- The open event of the predecessor, with what is read of it, and the events of the current journal.
pub record Source (N : Type 0) : Type 0 where
  pub event : Fields N
  pub payload : Fields N
  pub sha : Text
  pub current_events : List (Json N)

pub data Preflight (N : Type 0) : Type 0 where
  refused : CarryReason → Preflight N
  found : Source N → Preflight N

module _ {N : Type 0} (L : Library N) where
  -- The checks of the symbol and the hash.
  unfoldable pub take_payload :
      CarryArguments → List (Json N) → Fields N → Option (Fields N) → Preflight N
  take_payload a current_events event none = refused invalid_predecessor_open_payload
  take_payload a current_events event (some payload) =
      if not (text_eq (normalize (event_text L (codes "symbol") payload)) a.expected_symbol)
      then refused predecessor_symbol_mismatch
      else if is_empty (event_text L (codes "event_sha256") event)
      then refused source_event_hash_missing
      else found (record {
        event = event;
        payload = payload;
        sha = event_text L (codes "event_sha256") event;
        current_events = current_events;
      })

  unfoldable pub take_event : CarryArguments → List (Json N) → Option (Fields N) → Preflight N
  unfolding take_payload
  take_event a current_events none = refused expected_predecessor_position_not_open
  take_event a current_events (some event) =
      take_payload a current_events event (dictionary_at L (codes "payload") event)

  unfoldable pub take_active :
      CarryArguments → List (Json N) → Active N → Result CarryError (Preflight N)
  unfolding take_event
  take_active a current_events no_object = err attribute_error
  take_active a current_events invalid_lifecycle = ok (refused invalid_predecessor_lifecycle)
  take_active a current_events (active positions) =
      ok (take_event a current_events (lookup a.expected_position_id positions))

  unfoldable pub take_events :
      CarryArguments
      → Option (List (Json N))
      → Option (List (Json N))
      → Result CarryError (Preflight N)
  unfolding take_active
  take_events a none current = ok (refused journal_read_failure)
  take_events a (some events) none = ok (refused journal_read_failure)
  take_events a (some events) (some current_events) =
      take_active a current_events (active_open_events L [] events)

  -- After the verification of the current journal.
  unfoldable pub after_current :
      CarryArguments
      → File
      → File
      → Bool
      → Result JournalError Verification
      → Result CarryError (Preflight N)
  unfolding take_events
  after_current a predecessor current is_valid (err attribute_of_line) = err attribute_error
  after_current a predecessor current is_valid (err (empty_journal_line n)) =
      ok (refused journal_integrity_check_failed)
  after_current a predecessor current is_valid (err (invalid_journal_json n)) =
      ok (refused journal_integrity_check_failed)
  after_current a predecessor current is_valid (ok (broken reason i n)) = ok (
      refused (
        if not is_valid
        then predecessor_journal_integrity_failure
        else current_journal_integrity_failure))
  after_current a predecessor current is_valid (ok (chain_valid n sha)) =
      if not is_valid
      then ok (refused predecessor_journal_integrity_failure)
      else take_events a (read_events L predecessor) (read_events L current)

  -- After that of the predecessor.
  unfoldable pub after_predecessor :
      CarryArguments
      → File
      → File
      → Result JournalError Verification
      → Result CarryError (Preflight N)
  unfolding after_current
  after_predecessor a predecessor current (err attribute_of_line) = err attribute_error
  after_predecessor a predecessor current (err (empty_journal_line n)) =
      ok (refused journal_integrity_check_failed)
  after_predecessor a predecessor current (err (invalid_journal_json n)) =
      ok (refused journal_integrity_check_failed)
  after_predecessor a predecessor current (ok (broken reason i n)) =
      after_current a predecessor current false (verify L current)
  after_predecessor a predecessor current (ok (chain_valid n sha)) =
      after_current a predecessor current true (verify L current)

  -- All of the checks, with the test for a predecessor that is not there.
  unfoldable pub preflight : Bool → CarryArguments → File → File → Result CarryError (Preflight N)
  unfolding after_predecessor
  preflight is_missing a predecessor current =
      if is_empty a.expected_position_id || is_empty a.expected_symbol
      then ok (refused expected_position_identity_required)
      else if text_eq a.predecessor_journal_path a.current_journal_path
      then ok (refused source_target_journal_collision)
      else if is_prohibited a.predecessor_journal_path || is_prohibited a.current_journal_path
      then ok (refused prohibited_journal_path)
      else if is_missing
      then ok (refused predecessor_journal_not_found)
      else after_predecessor a predecessor current (verify L predecessor)
