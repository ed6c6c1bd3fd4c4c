-- ===== src/Aggregator.antt =====
-- src/mss/analysis/shadow_portfolio_risk_aggregator.py: one snapshot from the journals of all symbols.
pub mod Sources
pub mod Sort
pub mod Gather
pub mod Laws
mod Examples
use mss_package.Common.{
  ℕ, Bool, true, false, not, Option, none, some, List, [], ◌∷◌, Result, ok, err, length,
  if◌then◌else◌,
}
use mss_package.Common.Float.{Float}
use mss_package.Common.Text.{Text}
use mss_package.Journal.Chain.{File}
use mss_package.Journal.Json.{Library}
use mss_package.Recovery.Replay.{Escape}
use mss_package.RiskState.Position.{ShadowPortfolioPositionState}
use mss_package.RiskState.Snapshot.{SnapshotReason, ShadowPortfolioSnapshot, snapshot}
use Gather.{Gathered, gathered, blocked, escaped, gather}
use Sort.{sort_sources}
use Sources.{
  ShadowPortfolioJournalSource, AggregateReason, no_journal_sources,
  portfolio_risk_state_aggregated, snapshot_invalid, FailedReason, no_reason,
  ShadowPortfolioAggregateResult, Prepared, refuse, prepare,
}

module _ {N : Type 0} (F : Float N) where
  -- The end of `recover`, from the snapshot of all positions.
  unfoldable pub conclude :
      ℕ → ℕ → List (ShadowPortfolioPositionState N) → ShadowPortfolioAggregateResult N
  conclude source_count recovered_count positions =
      let s = snapshot F positions in
      if not s.valid
      then record {
        valid = false;
        reason = snapshot_invalid s.reason;
        source_count = source_count;
        recovered_source_count = recovered_count;
        open_position_count = length positions;
        failed_symbol = [];
        failed_reason = no_reason;
        snapshot = some s;
      }
      else record {
        valid = true;
        reason = portfolio_risk_state_aggregated;
        source_count = source_count;
        recovered_source_count = recovered_count;
        open_position_count = length s.positions;
        failed_symbol = [];
        failed_reason = no_reason;
        snapshot = some s;
      }

  unfoldable pub after_gather : ℕ → Gathered N → Result Escape (ShadowPortfolioAggregateResult N)
  unfolding conclude
  after_gather source_count (gathered recovered_count positions) =
      ok (conclude source_count recovered_count positions)
  after_gather source_count (blocked r) = ok r
  after_gather source_count (escaped e) = err e

module _ {N : Type 0} (L : Library N) (F : Float N) (files : Text → File) where
  -- From the sort on.
  unfoldable pub recover_prepared :
      Result (ShadowPortfolioAggregateResult N) (List Prepared)
      → Result Escape (ShadowPortfolioAggregateResult N)
  recover_prepared (err r) = ok r
  recover_prepared (ok prepared) =
      after_gather F (length prepared)
        (gather L F files (length prepared) 0 [] (sort_sources prepared))

  -- `ShadowPortfolioRiskAggregator.recover`, with the resolution of paths as an argument: `none` is
  -- one of the exceptions that `_normalize_path` catches.
  unfoldable pub recover :
      (Text → Option Text)
      → List ShadowPortfolioJournalSource
      → Result Escape (ShadowPortfolioAggregateResult N)
  recover resolve [] = ok (refuse no_journal_sources 0 [])
  recover resolve (source ∷ sources) =
      recover_prepared
        (prepare resolve (length (source ∷ sources)) (λ _. false) (λ _. false) (source ∷ sources))
