-- ===== src/CarryForward/Commit.antt =====
-- The staging and the commit in `import_open_position` of
-- src/mss/analysis/shadow_portfolio_carry_forward.py.
use mss_package.Common.{
  Bool, true, false, not, ◌==◌, none, List, [], any, is_some, length, Result, ok, err, ◌>>=◌,
  if◌then◌else◌,
}
use mss_package.Common.Float.{Float}
use mss_package.Common.Int.{ℤ}
use mss_package.Common.Text.{Text, codes, text_eq, is_empty}
use mss_package.Journal.Append.{AppendError, append_event}
use mss_package.Journal.Chain.{JournalError, Verification, broken, chain_valid, File, verify}
use mss_package.Journal.Json.{Fields, Library, ConversionError, get}
use mss_package.CarryForward.{
  CarryAction, block, already_imported, imported, CarryReason, predecessor_journal_mutated,
  predecessor_position_already_consumed, current_journal_not_pristine,
  predecessor_open_payload_incomplete, staged_journal_integrity_failure,
  staged_lifecycle_recovery_failure, staged_risk_recovery_failure, staged_journal_hash_missing,
  current_journal_changed_during_import, atomic_commit_failed, atomic_commit_hash_mismatch,
  predecessor_position_carried_forward, CarryError, of_conversion, of_append, of_journal,
  of_lifecycle, of_risk, ShadowPortfolioCarryForwardResult, CarryArguments, blocked, file_sha256,
  file_state,
}
use mss_package.CarryForward.Events.{is_imported}
use mss_package.CarryForward.Source.{Source, Preflight, refused, found, preflight}
use mss_package.PositionRecovery.{
  RecoveryError, ShadowPositionRecoveryResult, recover as recover_position,
}
use mss_package.Recovery.{ShadowPortfolioRiskRecoveryResult, recover as recover_risk}
use mss_package.Recovery.Replay.{Escape, or_key_error, event_text}
use mss_package.CarryForward.Import.{
  Meanwhile, Import, required_payload_fields, imported_payload, is_lifecycle_recovered,
  is_risk_recovered,
}

module _ (bytes_sha256 : List Text → Text) (a : CarryArguments) (m : Meanwhile)
    (source_sha before : Text) where
  -- A result with the hashes of the predecessor before and after.
  abbrev pub mutated : File → ShadowPortfolioCarryForwardResult
  mutated predecessor = record (blocked predecessor_journal_mutated) {
    predecessor_sha256_before = before;
    predecessor_sha256_after = file_sha256 bytes_sha256 predecessor;
  }

  -- A result that names the position.
  abbrev pub named :
      Bool → CarryAction → CarryReason → Text → Text → ShadowPortfolioCarryForwardResult
  named valid action why target after = record {
    valid = valid;
    action = action;
    reason = why;
    position_id = a.expected_position_id;
    symbol = a.expected_symbol;
    source_event_sha256 = source_sha;
    target_event_sha256 = target;
    predecessor_sha256_before = before;
    predecessor_sha256_after = after;
  }

  -- The checks after the commit.
  unfoldable pub after_commit : Text → Text → File → ShadowPortfolioCarryForwardResult
  after_commit target staging_sha256 current =
      if not (text_eq (file_sha256 bytes_sha256 current) staging_sha256)
      then blocked atomic_commit_hash_mismatch
      else if not (text_eq (file_sha256 bytes_sha256 m.predecessor_after) before)
      then mutated m.predecessor_after
      else named true imported predecessor_position_carried_forward target
          (file_sha256 bytes_sha256 m.predecessor_after)

  -- The test of a file's state.
  unfoldable pub same_state : Bool × Text → Bool × Text → Bool
  same_state (true, s) (true, t) = text_eq s t
  same_state (false, s) (false, t) = text_eq s t
  same_state (true, s) (false, t) = false
  same_state (false, s) (true, t) = false

  -- From the hash of the staged journal to the commit.
  unfoldable pub commit : Text → File → File → Import
  unfolding after_commit same_state
  commit target current staged =
      if is_empty (file_sha256 bytes_sha256 staged)
      then (ok (blocked staged_journal_hash_missing), m.current_then)
      else if not (text_eq (file_sha256 bytes_sha256 m.predecessor_then) before)
      then (ok (mutated m.predecessor_then), m.current_then)
      else if not
          (same_state (file_state bytes_sha256 m.current_then) (file_state bytes_sha256 current))
      then (ok (blocked current_journal_changed_during_import), m.current_then)
      else if not m.replaced
      then (
        ok (
            named false block atomic_commit_failed []
              (file_sha256 bytes_sha256 m.predecessor_after)),
        m.current_then,
      )
      else (
        ok (after_commit target (file_sha256 bytes_sha256 staged) (m.current_after staged)),
        m.current_after staged,
      )

module _ {N : Type 0} (L : Library N) (F : Float N) (bytes_sha256 : List Text → Text)
    (staging_path : Text) (a : CarryArguments) (m : Meanwhile) where
  -- From the two recoveries of the staged journal on.
  unfoldable pub check_recoveries :
      Text
      → Text
      → Text
      → File
      → File
      → Result RecoveryError (ShadowPositionRecoveryResult N)
      → Result Escape (ShadowPortfolioRiskRecoveryResult N)
      → Import
  unfolding commit
  check_recoveries source_sha before target current staged (err e) risk =
      (err (of_lifecycle e), m.current_then)
  check_recoveries source_sha before target current staged (ok lifecycle) (err e) =
      (err (of_risk e), m.current_then)
  check_recoveries source_sha before target current staged (ok lifecycle) (ok risk) =
      if not (is_lifecycle_recovered a lifecycle)
      then (ok (blocked staged_lifecycle_recovery_failure), m.current_then)
      else if not (is_risk_recovered a risk)
      then (ok (blocked staged_risk_recovery_failure), m.current_then)
      else commit bytes_sha256 a m source_sha before target current staged

  -- From the verification of the staged journal on.
  unfoldable pub check_staged :
      Text → Text → Text → File → File → Result JournalError Verification → Import
  unfolding check_recoveries
  check_staged source_sha before target current staged (err e) =
      (err (of_journal e), m.current_then)
  check_staged source_sha before target current staged (ok (broken reason i n)) =
      (ok (blocked staged_journal_integrity_failure), m.current_then)
  check_staged source_sha before target current staged (ok (chain_valid n sha)) =
      check_recoveries source_sha before target current staged (recover_position L F staged)
        (recover_risk L F staging_path staged)

  unfoldable pub after_append : Text → Text → File → Result AppendError (Fields N) × File → Import
  unfolding check_staged
  after_append source_sha before current (err e, staged) = (err (of_append e), m.current_then)
  after_append source_sha before current (ok event, staged) =
      check_staged source_sha before (event_text L (codes "event_sha256") event) current staged
        (verify L staged)

  -- From the epoch of the source event on.
  unfoldable pub stage : Source N → Text → File → Result ConversionError ℤ → Import
  unfolding after_append
  stage source before current (err e) = (err (of_conversion e), m.current_then)
  stage source before current (ok broker_epoch) = after_append source.sha before current (
      append_event L (codes "POSITION_OPENED") a.expected_position_id broker_epoch
        (imported_payload a source before) none)

  -- From the test for an earlier import on.
  unfoldable pub import_found : Source N → Text → File → Import
  unfolding stage
  import_found source before current =
      if is_imported L source.sha a.expected_position_id source.current_events
      then (
        (if not (text_eq (file_sha256 bytes_sha256 m.predecessor_then) before)
            then ok (mutated bytes_sha256 a m source.sha before m.predecessor_then)
            else ok (
                named bytes_sha256 a m source.sha before true already_imported
                  predecessor_position_already_consumed []
                  (file_sha256 bytes_sha256 m.predecessor_then))),
        current,
      )
      else if not (length source.current_events == 0)
      then (
        ok (
            named bytes_sha256 a m source.sha before false block current_journal_not_pristine []
              []),
        current,
      )
      else if any (λ (key : Text). not (is_some (get key source.payload))) required_payload_fields
      then (ok (blocked predecessor_open_payload_incomplete), current)
      else stage source before current
          (or_key_error L (get (codes "broker_epoch") source.event) >>= L.to_int)

  unfoldable pub after_preflight : Text → File → Result CarryError (Preflight N) → Import
  unfolding import_found
  after_preflight before current (err e) = (err e, current)
  after_preflight before current (ok (refused why)) = (ok (blocked why), current)
  after_preflight before current (ok (found source)) = import_found source before current

  -- `import_open_position`, of the two journals as it finds them.
  unfoldable pub import_open_position : File → File → Import
  unfolding after_preflight
  import_open_position predecessor current =
      let before = file_sha256 bytes_sha256 predecessor in
      after_preflight before current (preflight L (is_empty before) a predecessor current)
