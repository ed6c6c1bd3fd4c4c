-- ===== src/RiskState/Position.antt =====
-- `ShadowPortfolioRiskState.build_position` of src/mss/analysis/shadow_portfolio_risk_state.py.
pub mod Laws
use mss_package.Common.{
  ℕ, Bool, true, false, not, ◌&&◌, ◌||◌, Option, none, some, List, [], ◌∷◌, map, any, ◌==◌,
  if◌then◌else◌,
}
use mss_package.Common.Float.{Float, nought}
use mss_package.Common.Int.{ℤ, pos, leb_ℤ}
use mss_package.Common.Text.{Text, codes, text_eq, is_empty, contains, strip, lower, normalize}
use mss_package.Profiles.{DirectionalExposureProfile, directional_exposure}

pub record ShadowPortfolioPositionState (N : Type 0) : Type 0 where
  pub position_id : Text
  pub journal_path : Text
  pub symbol : Text
  pub direction : Text
  pub risk_percent : N
  pub risk_amount : N
  pub asset_class : Text
  pub exposure_tags : List Text
  pub entry_price : N
  pub stop_loss : N
  pub take_profit : N
  pub open_broker_epoch : ℤ

-- The keyword arguments of `build_position`.
pub record PositionArguments (N : Type 0) : Type 0 where
  pub position_id : Text
  pub journal_path : Text
  pub symbol : Text
  pub direction : Text
  pub risk_percent : N
  pub risk_amount : N
  pub entry_price : N
  pub stop_loss : N
  pub take_profit : N
  pub open_broker_epoch : ℤ

-- `prohibited_fragments`
abbrev pub prohibited_fragments : List Text
prohibited_fragments = codes "sprint92h_true_oos" ∷ codes "true_oos_v2" ∷ codes "/true_oos/" ∷ []

abbrev pub slash : ℕ → ℕ
slash c = if c == 92 then b'/' else c

-- `journal_path.replace("\\", "/").lower()`
unfoldable pub normalize_path : Text → Text
unfolding lower
normalize_path path = lower (map slash path)

-- Whether the path names data that is sealed.
unfoldable pub is_prohibited : Text → Bool
unfolding normalize_path contains
is_prohibited path =
    any (λ (fragment : Text). contains fragment (normalize_path path)) prohibited_fragments

module _ {N : Type 0} (F : Float N) where
  open F use {lt, le}

  -- The order of the prices that a direction asks for; no other direction has one.
  unfoldable pub are_prices_ordered : Text → N → N → N → Bool
  are_prices_ordered direction entry_price stop_loss take_profit =
      if text_eq direction (codes "BUY")
      then lt stop_loss entry_price && lt entry_price take_profit
      else if text_eq direction (codes "SELL")
      then lt take_profit entry_price && lt entry_price stop_loss
      else false

  -- The tests of the numbers, before the exposure is looked up.
  unfoldable pub has_nonpositive : PositionArguments N → Bool
  has_nonpositive a =
      le a.risk_percent (nought F)
      || le a.risk_amount (nought F)
      || le a.entry_price (nought F)
      || le a.stop_loss (nought F)
      || le a.take_profit (nought F)
      || leb_ℤ a.open_broker_epoch (pos 0)

  -- The state that is returned, from the texts in normal form.
  abbrev pub state_of :
      PositionArguments N → DirectionalExposureProfile → ShadowPortfolioPositionState N
  state_of a exposure = record {
    position_id = strip a.position_id;
    journal_path = strip a.journal_path;
    symbol = normalize a.symbol;
    direction = normalize a.direction;
    risk_percent = a.risk_percent;
    risk_amount = a.risk_amount;
    asset_class = exposure.asset_class;
    exposure_tags = exposure.exposure_tags;
    entry_price = a.entry_price;
    stop_loss = a.stop_loss;
    take_profit = a.take_profit;
    open_broker_epoch = a.open_broker_epoch;
  }

  -- From the look-up of the exposure on.
  unfoldable pub with_exposure :
      PositionArguments N
      → Option DirectionalExposureProfile
      → Option (ShadowPortfolioPositionState N)
  with_exposure a none = none
  with_exposure a (some exposure) =
      if are_prices_ordered (normalize a.direction) a.entry_price a.stop_loss a.take_profit
      then some (state_of a exposure)
      else none

  -- `ShadowPortfolioRiskState.build_position`
  unfoldable pub build_position : PositionArguments N → Option (ShadowPortfolioPositionState N)
  unfolding with_exposure
  build_position a =
      if is_empty (strip a.position_id)
      then none
      else if is_empty (strip a.journal_path)
      then none
      else if is_prohibited (strip a.journal_path)
      then none
      else if has_nonpositive a
      then none
      else with_exposure a (directional_exposure (normalize a.symbol) (normalize a.direction))
