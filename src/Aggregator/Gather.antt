-- ===== src/Aggregator/Gather.antt =====
-- The second loop of `recover` of src/mss/analysis/shadow_portfolio_risk_aggregator.py: the journals
-- are recovered in sorted order, and their positions combined.
pub mod Laws
use mss_package.Common.{
  ℕ, ◌+◌, Bool, true, false, not, Option, none, some, List, [], ◌∷◌, ◌++◌, Result, ok, err, length,
  if◌then◌else◌,
}
use mss_package.Common.Float.{Float}
use mss_package.Common.Text.{Text, text_eq}
use mss_package.Journal.Chain.{File}
use mss_package.Journal.Json.{Library}
use mss_package.Recovery.{ShadowPortfolioRiskRecoveryResult}
use mss_package.Recovery
use mss_package.Recovery.Replay.{Escape}
use mss_package.RiskState.Position.{ShadowPortfolioPositionState}
use mss_package.RiskState.Snapshot.{ShadowPortfolioSnapshot}
use mss_package.Aggregator.Sources.{
  AggregateReason, journal_recovery_failed, recovery_snapshot_missing, journal_symbol_mismatch,
  FailedReason, no_reason, recovery_reason, other_symbol, ShadowPortfolioAggregateResult, Prepared,
}

-- After the loop, or one round: the combined positions, or the end of the call.
pub data Gathered (N : Type 0) : Type 0 where
  gathered : ℕ → List (ShadowPortfolioPositionState N) → Gathered N
  blocked : ShadowPortfolioAggregateResult N → Gathered N
  escaped : Escape → Gathered N

module _ {N : Type 0} where
  -- A refusal while the journals are read.
  abbrev pub block :
      AggregateReason → ℕ → ℕ → ℕ → Text → FailedReason → ShadowPortfolioAggregateResult N
  block why source_count recovered_count open_count symbol detail = record {
    valid = false;
    reason = why;
    source_count = source_count;
    recovered_source_count = recovered_count;
    open_position_count = open_count;
    failed_symbol = symbol;
    failed_reason = detail;
    snapshot = none;
  }

  -- The loop over the positions of one snapshot.
  unfoldable pub combine :
      ℕ
      → ℕ
      → Text
      → List (ShadowPortfolioPositionState N)
      → List (ShadowPortfolioPositionState N)
      → Gathered N
  combine source_count recovered_count symbol combined [] = gathered recovered_count combined
  combine source_count recovered_count symbol combined (p ∷ positions) =
      let rest = combine source_count recovered_count symbol (combined ++ p ∷ []) positions in
      if not (text_eq p.symbol symbol)
      then blocked (
          block journal_symbol_mismatch source_count recovered_count (length combined) symbol
            (other_symbol p.symbol))
      else rest

  unfoldable pub take_snapshot :
      ℕ
      → ℕ
      → Text
      → List (ShadowPortfolioPositionState N)
      → Option (ShadowPortfolioSnapshot N)
      → Gathered N
  take_snapshot source_count recovered_count symbol combined none = blocked (
      block recovery_snapshot_missing source_count recovered_count (length combined) symbol
        no_reason)
  take_snapshot source_count recovered_count symbol combined (some s) =
      combine source_count recovered_count symbol combined s.positions

  -- One round, from the recovery of its journal.
  unfoldable pub take_recovery :
      ℕ
      → ℕ
      → Text
      → List (ShadowPortfolioPositionState N)
      → Result Escape (ShadowPortfolioRiskRecoveryResult N)
      → Gathered N
  unfolding take_snapshot
  take_recovery source_count recovered_count symbol combined (err e) = escaped e
  take_recovery source_count recovered_count symbol combined (ok r) =
      if not r.valid
      then blocked (
          block journal_recovery_failed source_count recovered_count (length combined) symbol
            (recovery_reason r.reason))
      else take_snapshot source_count (recovered_count + 1) symbol combined r.snapshot

module _ {N : Type 0} (L : Library N) (F : Float N) (files : Text → File) where
  -- The loop over the sorted sources.
  unfoldable pub gather : ℕ → ℕ → List (ShadowPortfolioPositionState N) → List Prepared → Gathered N
  gather source_count recovered_count combined [] = gathered recovered_count combined
  gather source_count recovered_count combined ((symbol, path) ∷ sources) =
      elim (take_recovery source_count recovered_count symbol combined
        (Recovery.recover L F path (files path))) [
          | gathered n positions ↦ gather source_count n positions sources
          | blocked r ↦ blocked r
          | escaped e ↦ escaped e
        ]
