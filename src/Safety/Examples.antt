-- ===== src/Safety/Examples.antt =====
-- A session with one open position, and one without its terminal and its limits.
use mss_package.Common.{◌≡◌, ◌↔◌, refl, true, false, [], ◌∷◌}
use mss_package.Common.Fixed.{Fixed, fix, fixed, nan}
use mss_package.Common.Int.{pos}
use mss_package.Safety.Allowed.{IsSafe, trading_allowed_iff}
use mss_package.Safety.Decision.{
  mt5_terminal_unavailable, portfolio_limits_invalid, evaluate, decide, found,
}
use mss_package.Safety.Facts.{ShadowLiveRuntimeSafetyFacts, build, are_portfolio_limits_valid}
use mss_package.Safety.Laws.{IsExplained, evaluate_explains}

abbrev facts : ShadowLiveRuntimeSafetyFacts Fixed
facts = record {
  manual_kill_switch_active = false;
  mt5_initialized = true;
  terminal_available = true;
  account_available = true;
  time_authority_confirmed = true;
  portfolio_recovery_valid = true;
  portfolio_snapshot_present = true;
  lifecycle_state_valid = true;
  memory_state_consistent = true;
  governor_state_consistent = true;
  open_position_count = pos 1;
  total_open_risk_percent = fix 500;
  max_open_positions = pos 2;
  max_total_open_risk_percent = fix 2000;
}

abbrev blocked_facts : ShadowLiveRuntimeSafetyFacts Fixed
blocked_facts = record facts { terminal_available = false; total_open_risk_percent = nan }

two_conditions :
    (evaluate (build fixed blocked_facts)).kill_conditions
    ≡ mt5_terminal_unavailable ∷ portfolio_limits_invalid ∷ []
unfolding evaluate decide found build are_portfolio_limits_valid
two_conditions = refl

evaluate_explains_example :
    IsExplained (build fixed blocked_facts) (evaluate (build fixed blocked_facts))
evaluate_explains_example = evaluate_explains (build fixed blocked_facts)

trading_allowed_iff_example :
    ((evaluate (build fixed facts)).trading_allowed ≡ true) ↔ IsSafe fixed facts
trading_allowed_iff_example = trading_allowed_iff fixed facts
