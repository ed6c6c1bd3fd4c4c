-- ===== src/Safety/Allowed.antt =====
-- From the facts of the session to the decision.
use mss_package.Common.{ap}
use mss_package.Common.{◌≡◌, ◌↔◌, Bool, true, false, not, arith, inl, inr}
use mss_package.Common.Float.{Float, nought}
use mss_package.Common.Int.{pos, ltb_ℤ}
use mss_package.Safety.Decision.{
  ShadowLiveSafetyState, KillCondition, manual_kill_switch_active, mt5_not_connected,
  mt5_terminal_unavailable, mt5_account_unavailable, time_authority_not_confirmed,
  portfolio_recovery_invalid, portfolio_snapshot_missing, lifecycle_state_invalid,
  memory_state_inconsistent, governor_state_inconsistent, portfolio_limits_invalid, evaluate,
}
use mss_package.Safety.Facts.{ShadowLiveRuntimeSafetyFacts, are_portfolio_limits_valid, build}
use mss_package.Safety.Laws.{holds, evaluate_explains}

module _ {N : Type 0} (F : Float N) where
  open F use {lt, is_finite}

  -- The count and the risk are within their limits, and all four numbers make sense.
  abbrev pub AreLimitsMet : ShadowLiveRuntimeSafetyFacts N → Type 0
  AreLimitsMet facts =
      (ltb_ℤ facts.open_position_count (pos 0) ≡ false)
      × (ltb_ℤ facts.max_open_positions (pos 0) ≡ false)
      × (ltb_ℤ facts.max_open_positions facts.open_position_count ≡ false)
      × (is_finite facts.total_open_risk_percent ≡ true)
      × (is_finite facts.max_total_open_risk_percent ≡ true)
      × (lt facts.total_open_risk_percent (nought F) ≡ false)
      × (lt facts.max_total_open_risk_percent (nought F) ≡ false)
      × (lt facts.max_total_open_risk_percent facts.total_open_risk_percent ≡ false)

  -- The facts under which trading is safe.
  pub record IsSafe (facts : ShadowLiveRuntimeSafetyFacts N) : Type 0 where
    pub not_killed : facts.manual_kill_switch_active ≡ false
    pub connected :
        (facts.mt5_initialized ≡ true)
        × (facts.terminal_available ≡ true)
        × (facts.account_available ≡ true)
        × (facts.time_authority_confirmed ≡ true)
    pub recovered :
        (facts.portfolio_recovery_valid ≡ true)
        × (facts.portfolio_snapshot_present ≡ true)
        × (facts.lifecycle_state_valid ≡ true)
        × (facts.memory_state_consistent ≡ true)
        × (facts.governor_state_consistent ≡ true)
    pub limited : AreLimitsMet facts

  limits_iff :
      (facts : ShadowLiveRuntimeSafetyFacts N)
      → ((build F facts).portfolio_limits_valid ≡ true) ↔ AreLimitsMet facts
  unfolding build are_portfolio_limits_valid
  limits_iff facts = ground arith

  allowed_if :
      (s : ShadowLiveSafetyState)
      → ((k : KillCondition) → holds s k ≡ false)
      → (evaluate s).trading_allowed ≡ true
  allowed_if s h = elim ((evaluate_explains s).cause) [
    | inl (a, _, _) ↦ a
    | inr (_, k, _, held, _) ↦ absurd (cc (held, h k))
  ]

  none_holds :
      (s : ShadowLiveSafetyState)
      → (evaluate s).trading_allowed ≡ true
      → (k : KillCondition) → holds s k ≡ false
  none_holds s a = elim ((evaluate_explains s).cause) [
    | inl (_, _, h) ↦ h
    | inr (b, _, _, _, _) ↦ absurd (cc (a, b))
  ]

  safe_none :
      (facts : ShadowLiveRuntimeSafetyFacts N)
      → IsSafe facts
      → (k : KillCondition) → holds (build F facts) k ≡ false
  unfolding build
  safe_none facts h manual_kill_switch_active = h.not_killed
  safe_none facts h mt5_not_connected = ap not h.connected.0
  safe_none facts h mt5_terminal_unavailable = ap not h.connected.1
  safe_none facts h mt5_account_unavailable = ap not h.connected.2
  safe_none facts h time_authority_not_confirmed = ap not h.connected.3
  safe_none facts h portfolio_recovery_invalid = ap not h.recovered.0
  safe_none facts h portfolio_snapshot_missing = ap not h.recovered.1
  safe_none facts h lifecycle_state_invalid = ap not h.recovered.2
  safe_none facts h memory_state_inconsistent = ap not h.recovered.3
  safe_none facts h governor_state_inconsistent = ap not h.recovered.4
  safe_none facts h portfolio_limits_invalid = ap not ((limits_iff facts).1 h.limited)

  is_true : (b : Bool) → not b ≡ false → b ≡ true
  is_true b h = ground arith

  none-IsSafe :
      (facts : ShadowLiveRuntimeSafetyFacts N)
      → ((k : KillCondition) → holds (build F facts) k ≡ false)
      → IsSafe facts
  unfolding build
  none-IsSafe facts h = record {
    not_killed = h manual_kill_switch_active;
    connected = (
      is_true _ (h mt5_not_connected),
      is_true _ (h mt5_terminal_unavailable),
      is_true _ (h mt5_account_unavailable),
      is_true _ (h time_authority_not_confirmed),
    );
    recovered = (
      is_true _ (h portfolio_recovery_invalid),
      is_true _ (h portfolio_snapshot_missing),
      is_true _ (h lifecycle_state_invalid),
      is_true _ (h memory_state_inconsistent),
      is_true _ (h governor_state_inconsistent),
    );
    limited = (limits_iff facts).0 (is_true _ (h portfolio_limits_invalid));
  }

  -- From the facts to the decision: trading is allowed exactly if the kill switch is off, all
  -- services and states are confirmed, and the count and the risk, finite and not negative, are
  -- within their limits.
  pub trading_allowed_iff :
      (facts : ShadowLiveRuntimeSafetyFacts N)
      → ((evaluate (build F facts)).trading_allowed ≡ true) ↔ IsSafe facts
  trading_allowed_iff facts = (
    λ a. none-IsSafe facts (none_holds (build F facts) a),
    λ h. allowed_if (build F facts) (safe_none facts h),
  )
