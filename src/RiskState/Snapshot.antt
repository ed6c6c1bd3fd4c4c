-- ===== src/RiskState/Snapshot.antt =====
-- `snapshot` and `governor_positions` of src/mss/analysis/shadow_portfolio_risk_state.py.
pub mod Sets
pub mod Laws
use mss_package.Common.{ℕ, Bool, true, false, not, ◌==◌, List, [], ◌∷◌, map, length, if◌then◌else◌}
use mss_package.Common.Float.{Float, nought, sum}
use mss_package.Common.Text.{Text}
use mss_package.Governor.Portfolio.{PortfolioPosition}
use mss_package.RiskState.Position.{ShadowPortfolioPositionState}
use Sets.{has_duplicates}

pub data SnapshotReason : Type 0 where
  duplicate_position_id duplicate_symbol_position portfolio_snapshot_valid : SnapshotReason

pub record ShadowPortfolioSnapshot (N : Type 0) : Type 0 where
  pub valid : Bool
  pub reason : SnapshotReason
  pub positions : List (ShadowPortfolioPositionState N)
  pub total_risk_percent : N
  pub total_risk_amount : N

module _ {N : Type 0} where
  abbrev pub ids_of : List (ShadowPortfolioPositionState N) → List Text
  ids_of = map (λ p. p.position_id)

  abbrev pub symbols_of : List (ShadowPortfolioPositionState N) → List Text
  symbols_of = map (λ p. p.symbol)

module _ {N : Type 0} (F : Float N) where
  abbrev pub rejected :
      SnapshotReason → List (ShadowPortfolioPositionState N) → ShadowPortfolioSnapshot N
  rejected why positions = record {
    valid = false;
    reason = why;
    positions = positions;
    total_risk_percent = nought F;
    total_risk_amount = nought F;
  }

  -- `ShadowPortfolioRiskState.snapshot`
  unfoldable pub snapshot : List (ShadowPortfolioPositionState N) → ShadowPortfolioSnapshot N
  snapshot positions =
      if has_duplicates (ids_of positions)
      then rejected duplicate_position_id positions
      else if has_duplicates (symbols_of positions)
      then rejected duplicate_symbol_position positions
      else record {
        valid = true;
        reason = portfolio_snapshot_valid;
        positions = positions;
        total_risk_percent = sum F (map (λ p. p.risk_percent) positions);
        total_risk_amount = sum F (map (λ p. p.risk_amount) positions);
      }

module _ {N : Type 0} where
  abbrev pub governor_position : ShadowPortfolioPositionState N → PortfolioPosition N
  governor_position p = record {
    symbol = p.symbol;
    asset_class = p.asset_class;
    risk_percent = p.risk_percent;
    exposure_tags = p.exposure_tags;
  }

  -- `ShadowPortfolioRiskState.governor_positions`
  unfoldable pub governor_positions : ShadowPortfolioSnapshot N → List (PortfolioPosition N)
  governor_positions s = if not s.valid then [] else map governor_position s.positions
