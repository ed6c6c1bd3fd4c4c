-- ===== src/Continuity.antt =====
-- src/mss/analysis/shadow_portfolio_continuity_policy.py: whether a session goes on, takes over the
-- position of the session before it, or is blocked.
pub mod Laws
mod Examples
use mss_package.Common.{
  ℕ, Bool, true, false, not, ◌&&◌, Option, none, some, List, [], ◌∷◌, length, ltb, if◌then◌else◌,
}
use mss_package.Common.Float.{Float}
use mss_package.Common.Int.{eqb_ℤ}
use mss_package.Common.Text.{Text, text_eq}
use mss_package.RiskState.Position.{ShadowPortfolioPositionState}
use mss_package.RiskState.Snapshot.{ShadowPortfolioSnapshot}

pub data Action : Type 0 where
  block continue_session import_required : Action

pub data ContinuityReason : Type 0 where
  continuity_snapshot_required current_snapshot_invalid : ContinuityReason
  predecessor_snapshot_invalid multiple_current_positions_not_allowed : ContinuityReason
  multiple_predecessor_positions_not_allowed continuity_clear : ContinuityReason
  predecessor_position_already_consumed predecessor_position_import_required : ContinuityReason
  current_position_active current_supersedes_predecessor : ContinuityReason
  current_predecessor_position_conflict : ContinuityReason

pub record ShadowPortfolioContinuityResult : Type 0 where
  pub valid : Bool
  pub action : Action
  pub reason : ContinuityReason
  pub current_position_count : ℕ
  pub predecessor_position_count : ℕ
  pub position_id : Text
  pub symbol : Text

-- A result that blocks.
abbrev blocked : ContinuityReason → ℕ → ℕ → ShadowPortfolioContinuityResult
blocked why current_count predecessor_count = record {
  valid = false;
  action = block;
  reason = why;
  current_position_count = current_count;
  predecessor_position_count = predecessor_count;
  position_id = [];
  symbol = [];
}

module _ {N : Type 0} where
  -- A valid result about a position.
  abbrev about :
      Action
      → ContinuityReason
      → ℕ
      → ℕ
      → ShadowPortfolioPositionState N
      → ShadowPortfolioContinuityResult
  about what why current_count predecessor_count p = record {
    valid = true;
    action = what;
    reason = why;
    current_position_count = current_count;
    predecessor_position_count = predecessor_count;
    position_id = p.position_id;
    symbol = p.symbol;
  }

module _ {N : Type 0} (F : Float N) where
  open F use {eq}

  -- `_same_position`
  unfoldable pub is_same_position :
      ShadowPortfolioPositionState N → ShadowPortfolioPositionState N → Bool
  is_same_position current predecessor =
      text_eq current.position_id predecessor.position_id
      && text_eq current.symbol predecessor.symbol
      && text_eq current.direction predecessor.direction
      && eq current.risk_percent predecessor.risk_percent
      && eq current.risk_amount predecessor.risk_amount
      && eq current.entry_price predecessor.entry_price
      && eq current.stop_loss predecessor.stop_loss
      && eq current.take_profit predecessor.take_profit
      && eqb_ℤ current.open_broker_epoch predecessor.open_broker_epoch

  -- After the tests of the counts, when each list has at most one position.
  unfoldable pub compare_positions :
      List (ShadowPortfolioPositionState N)
      → List (ShadowPortfolioPositionState N)
      → Bool
      → ShadowPortfolioContinuityResult
  compare_positions [] [] predecessor_consumed = record {
    valid = true;
    action = continue_session;
    reason = continuity_clear;
    current_position_count = 0;
    predecessor_position_count = 0;
    position_id = [];
    symbol = [];
  }
  compare_positions [] (predecessor ∷ ps) predecessor_consumed =
      if predecessor_consumed
      then about continue_session predecessor_position_already_consumed 0 1 predecessor
      else about import_required predecessor_position_import_required 0 1 predecessor
  compare_positions (current ∷ cs) [] predecessor_consumed =
      about continue_session current_position_active 1 0 current
  compare_positions (current ∷ cs) (predecessor ∷ ps) predecessor_consumed =
      if is_same_position current predecessor
      then about continue_session current_supersedes_predecessor 1 1 current
      else blocked current_predecessor_position_conflict 1 1

  -- The tests of the counts, and what follows them.
  unfoldable pub judge_counts :
      List (ShadowPortfolioPositionState N)
      → List (ShadowPortfolioPositionState N)
      → Bool
      → ShadowPortfolioContinuityResult
  judge_counts current predecessor predecessor_consumed =
      if ltb 1 (length current)
      then blocked multiple_current_positions_not_allowed (length current) (length predecessor)
      else if ltb 1 (length predecessor)
      then blocked multiple_predecessor_positions_not_allowed (length current) (length predecessor)
      else compare_positions current predecessor predecessor_consumed

  -- `ShadowPortfolioContinuityPolicy.evaluate`
  unfoldable pub evaluate :
      Option (ShadowPortfolioSnapshot N)
      → Option (ShadowPortfolioSnapshot N)
      → Bool
      → ShadowPortfolioContinuityResult
  evaluate none predecessor predecessor_consumed = blocked continuity_snapshot_required 0 0
  evaluate (some current) none predecessor_consumed = blocked continuity_snapshot_required 0 0
  evaluate (some current) (some predecessor) predecessor_consumed =
      if not current.valid
      then blocked current_snapshot_invalid 0 0
      else if not predecessor.valid
      then blocked predecessor_snapshot_invalid 0 0
      else judge_counts current.positions predecessor.positions predecessor_consumed
