-- ===== src/CarryForward.antt =====
-- src/mss/analysis/shadow_portfolio_carry_forward.py: the import of an open position from the journal
-- of an earlier session into that of the current one.
pub mod Events
pub mod Source
pub mod Import
pub mod Commit
pub mod Committed
pub mod Again
mod Examples
use mss_package.Common.{Bool, true, false, Option, none, some, List, [], ◌∷◌, if◌then◌else◌}
use mss_package.Common.Text.{Text, codes, is_empty}
use mss_package.Journal.Append.{AppendError}
use mss_package.Journal.Chain.{JournalError, File}
use mss_package.Journal.Json.{ConversionError}
use mss_package.PositionRecovery.{RecoveryError}
use mss_package.Recovery.Replay.{Escape}

pub data CarryAction : Type 0 where
  block already_imported imported : CarryAction

pub data CarryReason : Type 0 where
  expected_position_identity_required source_target_journal_collision : CarryReason
  prohibited_journal_path predecessor_journal_not_found journal_integrity_check_failed : CarryReason
  predecessor_journal_integrity_failure current_journal_integrity_failure : CarryReason
  journal_read_failure invalid_predecessor_lifecycle expected_predecessor_position_not_open :
      CarryReason
  invalid_predecessor_open_payload predecessor_symbol_mismatch source_event_hash_missing :
      CarryReason
  predecessor_journal_mutated predecessor_position_already_consumed : CarryReason
  predecessor_position_not_yet_consumed current_journal_not_pristine : CarryReason
  predecessor_open_payload_incomplete staged_journal_integrity_failure : CarryReason
  staged_lifecycle_recovery_failure staged_risk_recovery_failure : CarryReason
  staged_journal_hash_missing current_journal_changed_during_import : CarryReason
  atomic_commit_failed atomic_commit_hash_mismatch predecessor_position_carried_forward :
      CarryReason

-- The exceptions that the two calls let through: the `AttributeError` of a line that holds no
-- object, those of `int`, of the append and the verification of the staged journal, and of the two
-- recoveries of it.
pub data CarryError : Type 0 where
  attribute_error : CarryError
  of_conversion : ConversionError → CarryError
  of_append : AppendError → CarryError
  of_journal : JournalError → CarryError
  of_lifecycle : RecoveryError → CarryError
  of_risk : Escape → CarryError

pub record ShadowPortfolioCarryForwardResult : Type 0 where
  pub valid : Bool
  pub action : CarryAction
  pub reason : CarryReason
  pub position_id : Text
  pub symbol : Text
  pub source_event_sha256 : Text
  pub target_event_sha256 : Text
  pub predecessor_sha256_before : Text
  pub predecessor_sha256_after : Text

pub record ShadowPortfolioCarryForwardConsumptionResult : Type 0 where
  pub valid : Bool
  pub consumed : Bool
  pub reason : CarryReason
  pub position_id : Text
  pub symbol : Text
  pub source_event_sha256 : Text

-- The arguments of both calls: resolved paths, an identifier without blanks around it, and a
-- symbol in capitals.
pub record CarryArguments : Type 0 where
  pub predecessor_journal_path : Text
  pub current_journal_path : Text
  pub expected_position_id : Text
  pub expected_symbol : Text

-- `ShadowPortfolioCarryForwardResult(valid=False, action="BLOCK", reason=...)`
abbrev pub blocked : CarryReason → ShadowPortfolioCarryForwardResult
blocked why = record {
  valid = false;
  action = block;
  reason = why;
  position_id = [];
  symbol = [];
  source_event_sha256 = [];
  target_event_sha256 = [];
  predecessor_sha256_before = [];
  predecessor_sha256_after = [];
}

abbrev pub not_inspected : CarryReason → ShadowPortfolioCarryForwardConsumptionResult
not_inspected why = record {
  valid = false;
  consumed = false;
  reason = why;
  position_id = [];
  symbol = [];
  source_event_sha256 = [];
}

-- `hashlib.sha256(path.read_bytes()).hexdigest()` of a file's lines is an argument.
module _ (bytes_sha256 : List Text → Text) where
  -- `_file_sha256`
  unfoldable pub file_sha256 : File → Text
  file_sha256 none = []
  file_sha256 (some lines) = bytes_sha256 lines

  -- `_file_state`
  unfoldable pub file_state : File → Bool × Text
  file_state none = (false, [])
  file_state (some lines) = (true, bytes_sha256 lines)
