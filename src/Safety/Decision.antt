-- ===== src/Safety/Decision.antt =====
-- src/mss/analysis/shadow_live_safety_governor.py
use mss_package.Common.{Bool, true, false, not, List, [], ◌∷◌, if◌then◌else◌}

pub record ShadowLiveSafetyState : Type 0 where
  pub manual_kill_switch_active : Bool
  pub mt5_connected : Bool
  pub terminal_available : Bool
  pub account_available : Bool
  pub time_authority_confirmed : Bool
  pub portfolio_recovery_valid : Bool
  pub portfolio_snapshot_present : Bool
  pub lifecycle_state_valid : Bool
  pub memory_state_consistent : Bool
  pub governor_state_consistent : Bool
  pub portfolio_limits_valid : Bool

pub data KillCondition : Type 0 where
  manual_kill_switch_active mt5_not_connected mt5_terminal_unavailable : KillCondition
  mt5_account_unavailable time_authority_not_confirmed : KillCondition
  portfolio_recovery_invalid portfolio_snapshot_missing : KillCondition
  lifecycle_state_invalid memory_state_inconsistent : KillCondition
  governor_state_inconsistent portfolio_limits_invalid : KillCondition

pub data SafetyReason : Type 0 where
  killed : KillCondition → SafetyReason
  global_safety_confirmed : SafetyReason

pub record ShadowLiveSafetyDecision : Type 0 where
  pub trading_allowed : Bool
  pub hard_block : Bool
  pub reason : SafetyReason
  pub kill_conditions : List KillCondition

abbrev pub Check : Type 0
Check = KillCondition × (ShadowLiveSafetyState → Bool)

-- `_CHECKS`
abbrev pub checks : List Check
checks =
    (manual_kill_switch_active, λ s. s.manual_kill_switch_active)
    ∷ (mt5_not_connected, λ s. not s.mt5_connected)
    ∷ (mt5_terminal_unavailable, λ s. not s.terminal_available)
    ∷ (mt5_account_unavailable, λ s. not s.account_available)
    ∷ (time_authority_not_confirmed, λ s. not s.time_authority_confirmed)
    ∷ (portfolio_recovery_invalid, λ s. not s.portfolio_recovery_valid)
    ∷ (portfolio_snapshot_missing, λ s. not s.portfolio_snapshot_present)
    ∷ (lifecycle_state_invalid, λ s. not s.lifecycle_state_valid)
    ∷ (memory_state_inconsistent, λ s. not s.memory_state_consistent)
    ∷ (governor_state_inconsistent, λ s. not s.governor_state_consistent)
    ∷ (portfolio_limits_invalid, λ s. not s.portfolio_limits_valid)
    ∷ []

-- The reasons whose predicate holds, in their order.
unfoldable pub found : ShadowLiveSafetyState → List Check → List KillCondition
found state [] = []
found state ((reason, predicate) ∷ rest) =
    let more = found state rest in if predicate state then reason ∷ more else more

unfoldable pub decide : List KillCondition → ShadowLiveSafetyDecision
decide [] = record {
  trading_allowed = true;
  hard_block = false;
  reason = global_safety_confirmed;
  kill_conditions = [];
}
decide (k ∷ ks) = record {
  trading_allowed = false;
  hard_block = true;
  reason = killed k;
  kill_conditions = k ∷ ks;
}

-- `ShadowLiveSafetyGovernor.evaluate`
unfoldable pub evaluate : ShadowLiveSafetyState → ShadowLiveSafetyDecision
evaluate state = decide (found state checks)
