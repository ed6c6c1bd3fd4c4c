-- ===== src/Recovery.antt =====
-- src/mss/analysis/shadow_portfolio_risk_recovery.py: the risk state of a portfolio from its journal.
pub mod Replay
pub mod Keys
pub mod Laws
pub mod OpenIds
pub mod Examples
use mss_package.Common.{
  ℕ, Bool, true, false, not, Option, none, some, List, [], ◌∷◌, map, Result, ok, err, length,
  if◌then◌else◌,
}
use mss_package.Common.Dict.{Dict}
use mss_package.Common.Float.{Float}
use mss_package.Common.Text.{Text, is_empty, strip}
use mss_package.Journal.Chain.{
  JournalError, attribute_error, empty_journal_line, invalid_journal_json, Verification, broken,
  chain_valid, File, verify,
}
use mss_package.Journal.Json.{Json, Library}
use mss_package.RiskState.Position.{ShadowPortfolioPositionState}
use mss_package.RiskState.Snapshot.{SnapshotReason, ShadowPortfolioSnapshot, snapshot}
use Replay.{
  Escape, attribute_escape, RecoveryReason, shadow_journal_integrity_failure,
  shadow_journal_read_failure, snapshot_invalid, no_open_portfolio_risk_position,
  open_portfolio_risk_state_recovered, Outcome, proceed, stop, escape, replay,
}

pub record ShadowPortfolioRiskRecoveryResult (N : Type 0) : Type 0 where
  pub valid : Bool
  pub reason : RecoveryReason
  pub event_count : ℕ
  pub open_position_count : ℕ
  pub snapshot : Option (ShadowPortfolioSnapshot N)

module _ {N : Type 0} where
  -- A result that is not valid, with what it sets of the counts.
  abbrev pub failed :
      RecoveryReason
      → ℕ
      → ℕ
      → Option (ShadowPortfolioSnapshot N)
      → ShadowPortfolioRiskRecoveryResult N
  failed why events open_count s = record {
    valid = false;
    reason = why;
    event_count = events;
    open_position_count = open_count;
    snapshot = s;
  }

  abbrev pub values_of :
      Dict (ShadowPortfolioPositionState N) → List (ShadowPortfolioPositionState N)
  values_of = map (λ e. e.1)

  abbrev pub success_reason : Dict (ShadowPortfolioPositionState N) → RecoveryReason
  success_reason [] = no_open_portfolio_risk_position
  success_reason (e ∷ d) = open_portfolio_risk_state_recovered

module _ {N : Type 0} (L : Library N) where
  open L use {loads}

  abbrev add_event : Option (Json N) → Option (List (Json N)) → Option (List (Json N))
  add_event none rest = none
  add_event (some event) none = none
  add_event (some event) (some events) = some (event ∷ events)

  -- `ShadowPortfolioRiskRecovery._read_events`, with `none` for a `JSONDecodeError`.
  unfoldable pub read_lines : List Text → Option (List (Json N))
  read_lines [] = some []
  read_lines (line ∷ lines) =
      let rest = read_lines lines in
      if is_empty (strip line) then rest else add_event (loads (strip line)) rest

  unfoldable pub read_events : File → Option (List (Json N))
  unfolding read_lines
  read_events none = some []
  read_events (some lines) = read_lines lines

module _ {N : Type 0} (F : Float N) where
  -- The result, from the snapshot of the positions that are left.
  unfoldable pub conclude :
      ℕ → Dict (ShadowPortfolioPositionState N) → ShadowPortfolioRiskRecoveryResult N
  conclude event_count positions =
      let s = snapshot F (values_of positions) in
      if not s.valid
      then failed (snapshot_invalid s.reason) event_count (length positions) (some s)
      else record {
        valid = true;
        reason = success_reason positions;
        event_count = event_count;
        open_position_count = length positions;
        snapshot = some s;
      }

  unfoldable pub after_replay : ℕ → Outcome N → Result Escape (ShadowPortfolioRiskRecoveryResult N)
  unfolding conclude
  after_replay event_count (proceed positions) = ok (conclude event_count positions)
  after_replay event_count (stop why open_count) = ok (failed why event_count open_count none)
  after_replay event_count (escape e) = err e

module _ {N : Type 0} (L : Library N) (F : Float N) where
  -- From the second reading of the file on.
  unfoldable pub recover_events :
      Text → Option (List (Json N)) → Result Escape (ShadowPortfolioRiskRecoveryResult N)
  unfolding after_replay
  recover_events path none = ok (failed shadow_journal_read_failure 0 0 none)
  recover_events path (some events) = after_replay F (length events) (replay L F path [] events)

  -- The handling of what `ShadowTradeJournal.verify` returns or raises.
  unfoldable pub recover_verified :
      Text
      → File
      → Result JournalError Verification
      → Result Escape (ShadowPortfolioRiskRecoveryResult N)
  unfolding recover_events
  recover_verified path file (err attribute_error) = err attribute_escape
  recover_verified path file (err (empty_journal_line n)) =
      ok (failed shadow_journal_integrity_failure 0 0 none)
  recover_verified path file (err (invalid_journal_json n)) =
      ok (failed shadow_journal_integrity_failure 0 0 none)
  recover_verified path file (ok (broken reason i n)) =
      ok (failed shadow_journal_integrity_failure n 0 none)
  recover_verified path file (ok (chain_valid n sha)) = recover_events path (read_events L file)

  -- `ShadowPortfolioRiskRecovery.recover` of a file at a resolved path.
  unfoldable pub recover : Text → File → Result Escape (ShadowPortfolioRiskRecoveryResult N)
  unfolding recover_verified
  recover path file = recover_verified path file (verify L file)
