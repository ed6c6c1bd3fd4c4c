-- ===== src/Governor/Portfolio.antt =====
-- `PortfolioRiskGovernor` of src/mss/analysis/portfolio_risk_governor.py. The keyword arguments
-- `candidate_symbol`, `candidate_asset_class`, `candidate_risk_percent` and
-- `candidate_exposure_tags` are the fields of one position, `candidate`.
pub mod Exposure
pub mod Limits
pub mod Admission
pub mod Invariant
mod Examples
use mss_package.Common.{
  ℕ, zero, suc, ◌+◌, Bool, true, false, ◌||◌, Option, none, some, List, [], ◌∷◌, map, foldl, Result,
  ok, err, ◌>>=◌, ltb, length, any, if◌then◌else◌,
}
use mss_package.Common.Dict.{Dict, lookup, insert}
use mss_package.Common.Float.{Float, nought, sum}
use mss_package.Common.Text.{Text, text_eq}
use mss_package.Governor.Tags.{TagError, normalize_exposure_tags}

pub record PortfolioPosition (N : Type 0) : Type 0 where
  pub symbol : Text
  pub asset_class : Text
  pub risk_percent : N
  pub exposure_tags : List Text

pub data RiskReason : Type 0 where
  invalid_directional_exposure risk_per_trade_limit duplicate_symbol_position : RiskReason
  max_simultaneous_positions max_total_open_risk asset_class_concentration : RiskReason
  invalid_existing_directional_exposure directional_exposure_concentration : RiskReason
  portfolio_risk_allowed : RiskReason

pub record PortfolioRiskResult (N : Type 0) : Type 0 where
  pub allowed : Bool
  pub reason : RiskReason
  pub total_open_risk_percent : N
  pub projected_total_risk_percent : N
  pub open_position_count : ℕ
  pub projected_position_count : ℕ

-- `MAX_SIMULTANEOUS_POSITIONS`, `MAX_POSITIONS_PER_ASSET_CLASS`, `MAX_DIRECTIONAL_EXPOSURE_COUNT`
abbrev pub max_positions : ℕ
max_positions = 2

abbrev pub max_per_asset_class : ℕ
max_per_asset_class = 1

abbrev pub max_exposure_count : ℕ
max_exposure_count = 1

-- `exposure_counts.get(tag, 0)`
abbrev pub or_nought : Option ℕ → ℕ
or_nought none = 0
or_nought (some n) = n

abbrev pub get_count : Text → Dict ℕ → ℕ
get_count tag counts = or_nought (lookup tag counts)

-- `exposure_counts[tag] = exposure_counts.get(tag, 0) + 1`
pub count_tag : Dict ℕ → Text → Dict ℕ
count_tag counts tag = insert tag (get_count tag counts + 1) counts

pub count_tags : Dict ℕ → List Text → Dict ℕ
unfolding count_tag
count_tags counts [] = counts
count_tags counts (tag ∷ tags) = count_tags (count_tag counts tag) tags

module _ {N : Type 0} where
  -- The loop over the open positions that fills `exposure_counts`.
  pub count_positions : Dict ℕ → List (PortfolioPosition N) → Result TagError (Dict ℕ)
  unfolding count_tags
  count_positions counts [] = ok counts
  count_positions counts (p ∷ positions) = elim (normalize_exposure_tags p.exposure_tags) [
    | err e ↦ err e
    | ok tags ↦ count_positions (count_tags counts tags) positions
  ]

  -- `sum(1 for position in positions if position.asset_class == candidate_asset_class)`
  pub same_class_count : Text → List (PortfolioPosition N) → ℕ
  same_class_count asset_class [] = 0
  same_class_count asset_class (p ∷ positions) =
      let rest = same_class_count asset_class positions in
      if text_eq p.asset_class asset_class then rest + 1 else rest

  abbrev pub has_symbol : Text → List (PortfolioPosition N) → Bool
  has_symbol symbol = any (λ (p : PortfolioPosition N). text_eq p.symbol symbol)

-- Whether a candidate's tag would be held more often than allowed.
abbrev pub is_concentrated : Dict ℕ → List Text → Bool
is_concentrated counts = any (λ (tag : Text). ltb max_exposure_count (get_count tag counts + 1))

module _ {N : Type 0} (F : Float N) where
  open F use {ratio, lt, le, add}

  abbrev pub max_risk_per_trade_percent : N
  max_risk_per_trade_percent = ratio 1 1

  abbrev pub max_total_open_risk_percent : N
  max_total_open_risk_percent = ratio 2 1

  abbrev pub total_open_risk : List (PortfolioPosition N) → N
  total_open_risk positions = sum F (map (λ (p : PortfolioPosition N). p.risk_percent) positions)

  abbrev verdict :
      Bool → RiskReason → PortfolioPosition N → List (PortfolioPosition N) → PortfolioRiskResult N
  verdict is_allowed why candidate positions = record {
    allowed = is_allowed;
    reason = why;
    total_open_risk_percent = total_open_risk positions;
    projected_total_risk_percent = add (total_open_risk positions) candidate.risk_percent;
    open_position_count = length positions;
    projected_position_count = length positions + 1;
  }

  -- The loops over the exposure tags, at the end of `evaluate`.
  pub judge_exposure :
      PortfolioPosition N → List Text → List (PortfolioPosition N) → PortfolioRiskResult N
  unfolding count_positions
  judge_exposure candidate candidate_tags positions = elim (count_positions [] positions) [
    | err _ ↦ verdict false invalid_existing_directional_exposure candidate positions
    | ok counts ↦
        if is_concentrated counts candidate_tags
        then verdict false directional_exposure_concentration candidate positions
        else verdict true portfolio_risk_allowed candidate positions
  ]

  -- `evaluate`, once the candidate's tags are normalised.
  pub judge_limits :
      PortfolioPosition N → List Text → List (PortfolioPosition N) → PortfolioRiskResult N
  judge_limits candidate candidate_tags positions =
      if le candidate.risk_percent (nought F)
        || lt max_risk_per_trade_percent candidate.risk_percent
      then verdict false risk_per_trade_limit candidate positions
      else if has_symbol candidate.symbol positions
      then verdict false duplicate_symbol_position candidate positions
      else if ltb max_positions (length positions + 1)
      then verdict false max_simultaneous_positions candidate positions
      else if lt max_total_open_risk_percent
          (add (total_open_risk positions) candidate.risk_percent)
      then verdict false max_total_open_risk candidate positions
      else if ltb max_per_asset_class (same_class_count candidate.asset_class positions + 1)
      then verdict false asset_class_concentration candidate positions
      else judge_exposure candidate candidate_tags positions

  -- `PortfolioRiskGovernor.evaluate`
  pub evaluate : PortfolioPosition N → List (PortfolioPosition N) → PortfolioRiskResult N
  unfolding judge_limits
  evaluate candidate positions = elim (normalize_exposure_tags candidate.exposure_tags) [
    | err _ ↦ record {
      allowed = false;
      reason = invalid_directional_exposure;
      total_open_risk_percent = total_open_risk positions;
      projected_total_risk_percent = nought F;
      open_position_count = length positions;
      projected_position_count = length positions + 1;
    }
    | ok candidate_tags ↦ judge_limits candidate candidate_tags positions
  ]
