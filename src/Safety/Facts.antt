-- ===== src/Safety/Facts.antt =====
-- src/mss/analysis/shadow_live_runtime_safety_adapter.py. The facts have the types that their dataclass
-- declares, on which `int`, `float` and `bool` change nothing.
use mss_package.Common.{Bool, true, false, not, if◌then◌else◌}
use mss_package.Common.Float.{Float, nought}
use mss_package.Common.Int.{ℤ, pos, ltb_ℤ}
use mss_package.Safety.Decision.{ShadowLiveSafetyState}

pub record ShadowLiveRuntimeSafetyFacts (N : Type 0) : Type 0 where
  pub manual_kill_switch_active : Bool
  pub mt5_initialized : Bool
  pub terminal_available : Bool
  pub account_available : Bool
  pub time_authority_confirmed : Bool
  pub portfolio_recovery_valid : Bool
  pub portfolio_snapshot_present : Bool
  pub lifecycle_state_valid : Bool
  pub memory_state_consistent : Bool
  pub governor_state_consistent : Bool
  pub open_position_count : ℤ
  pub total_open_risk_percent : N
  pub max_open_positions : ℤ
  pub max_total_open_risk_percent : N

module _ {N : Type 0} (F : Float N) where
  open F use {lt, is_finite}

  -- `_portfolio_limits_valid`
  unfoldable pub are_portfolio_limits_valid : ℤ → N → ℤ → N → Bool
  are_portfolio_limits_valid count risk max_count max_risk =
      if ltb_ℤ count (pos 0)
      then false
      else if ltb_ℤ max_count (pos 0)
      then false
      else if not (is_finite risk)
      then false
      else if not (is_finite max_risk)
      then false
      else if lt risk (nought F)
      then false
      else if lt max_risk (nought F)
      then false
      else if ltb_ℤ max_count count
      then false
      else if lt max_risk risk
      then false
      else true

  -- `ShadowLiveRuntimeSafetyAdapter.build`
  unfoldable pub build : ShadowLiveRuntimeSafetyFacts N → ShadowLiveSafetyState
  build facts = record {
    manual_kill_switch_active = facts.manual_kill_switch_active;
    mt5_connected = facts.mt5_initialized;
    terminal_available = facts.terminal_available;
    account_available = facts.account_available;
    time_authority_confirmed = facts.time_authority_confirmed;
    portfolio_recovery_valid = facts.portfolio_recovery_valid;
    portfolio_snapshot_present = facts.portfolio_snapshot_present;
    lifecycle_state_valid = facts.lifecycle_state_valid;
    memory_state_consistent = facts.memory_state_consistent;
    governor_state_consistent = facts.governor_state_consistent;
    portfolio_limits_valid =
        are_portfolio_limits_valid facts.open_position_count facts.total_open_risk_percent
          facts.max_open_positions facts.max_total_open_risk_percent;
  }
