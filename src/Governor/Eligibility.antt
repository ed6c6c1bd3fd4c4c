-- ===== src/Governor/Eligibility.antt =====
-- `MarketEligibilityGate` of src/mss/analysis/portfolio_risk_governor.py.
pub mod Laws
mod Examples
use mss_package.Common.{ℕ, ◌≡◌, ◌↔◌, Bool, true, false, not, ◌||◌, arith, if◌then◌else◌}
use mss_package.Common.Float.{Float, nought}

pub data EligibilityReason : Type 0 where
  symbol_not_tradable quote_not_fresh invalid_market_values : EligibilityReason
  invalid_stop_distance spread_to_stop_ratio_too_high market_eligible : EligibilityReason

pub record MarketEligibilityResult (N : Type 0) : Type 0 where
  pub eligible : Bool
  pub reason : EligibilityReason
  pub spread_price : N
  pub stop_distance : N
  pub spread_to_stop_ratio : N

module _ {N : Type 0} (F : Float N) where
  open F use {ratio, lt, le, sub, div, abs}

  -- 0.20
  abbrev pub max_spread_to_stop_ratio : N
  max_spread_to_stop_ratio = ratio 1 5

  -- The test of the prices: `bid <= 0 or ask <= 0 or ask < bid or ...`.
  pub are_values_invalid : N → N → N → N → Bool
  are_values_invalid bid ask entry_price stop_loss =
      le bid (nought F)
      || le ask (nought F)
      || lt ask bid
      || le entry_price (nought F)
      || le stop_loss (nought F)

  -- `MarketEligibilityGate.evaluate`, from the test of the stop distance on.
  pub judge_spread : N → N → MarketEligibilityResult N
  judge_spread spread_price stop_distance =
      let q = div spread_price stop_distance in
      if le stop_distance (nought F)
      then record {
        eligible = false;
        reason = invalid_stop_distance;
        spread_price = spread_price;
        stop_distance = stop_distance;
        spread_to_stop_ratio = nought F;
      }
      else if lt max_spread_to_stop_ratio q
      then record {
        eligible = false;
        reason = spread_to_stop_ratio_too_high;
        spread_price = spread_price;
        stop_distance = stop_distance;
        spread_to_stop_ratio = q;
      }
      else record {
        eligible = true;
        reason = market_eligible;
        spread_price = spread_price;
        stop_distance = stop_distance;
        spread_to_stop_ratio = q;
      }

  abbrev ineligible : EligibilityReason → MarketEligibilityResult N
  ineligible why = record {
    eligible = false;
    reason = why;
    spread_price = nought F;
    stop_distance = nought F;
    spread_to_stop_ratio = nought F;
  }

  -- `MarketEligibilityGate.evaluate`
  unfoldable pub evaluate : N → N → N → N → Bool → Bool → MarketEligibilityResult N
  unfolding are_values_invalid judge_spread
  evaluate bid ask entry_price stop_loss symbol_tradable quote_fresh =
      if not symbol_tradable
      then ineligible symbol_not_tradable
      else if not quote_fresh
      then ineligible quote_not_fresh
      else if are_values_invalid bid ask entry_price stop_loss
      then ineligible invalid_market_values
      else judge_spread (sub ask bid) (abs (sub entry_price stop_loss))
