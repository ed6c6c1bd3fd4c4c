-- ===== src/Safety/Laws.antt =====
-- What the safety decision says, without the list of checks.
use mss_package.Common.{ap, sym, ==_self}
use mss_package.Common.{◌∙◌, ◌&&◌, ◌<◌, ◌≤◌, All}
use mss_package.Common.{
  ℕ, ◌≡◌, refl, Bool, true, false, not, ◌||◌, List, [], ◌∷◌, arith, ◌==◌, any, ◌⊎◌, inl, inr,
}
use mss_package.Safety.Decision.{
  ShadowLiveSafetyState, ShadowLiveSafetyDecision, KillCondition, manual_kill_switch_active,
  mt5_not_connected, mt5_terminal_unavailable, mt5_account_unavailable,
  time_authority_not_confirmed, portfolio_recovery_invalid, portfolio_snapshot_missing,
  lifecycle_state_invalid, memory_state_inconsistent, governor_state_inconsistent,
  portfolio_limits_invalid, killed, global_safety_confirmed, found, decide, evaluate, Check, checks,
}

-- Whether a kill condition holds.
abbrev pub holds : ShadowLiveSafetyState → KillCondition → Bool
holds s manual_kill_switch_active = s.manual_kill_switch_active
holds s mt5_not_connected = not s.mt5_connected
holds s mt5_terminal_unavailable = not s.terminal_available
holds s mt5_account_unavailable = not s.account_available
holds s time_authority_not_confirmed = not s.time_authority_confirmed
holds s portfolio_recovery_invalid = not s.portfolio_recovery_valid
holds s portfolio_snapshot_missing = not s.portfolio_snapshot_present
holds s lifecycle_state_invalid = not s.lifecycle_state_valid
holds s memory_state_inconsistent = not s.memory_state_consistent
holds s governor_state_inconsistent = not s.governor_state_consistent
holds s portfolio_limits_invalid = not s.portfolio_limits_valid

-- The place of a kill condition in the order of urgency.
abbrev pub rank : KillCondition → ℕ
rank manual_kill_switch_active = 0
rank mt5_not_connected = 1
rank mt5_terminal_unavailable = 2
rank mt5_account_unavailable = 3
rank time_authority_not_confirmed = 4
rank portfolio_recovery_invalid = 5
rank portfolio_snapshot_missing = 6
rank lifecycle_state_invalid = 7
rank memory_state_inconsistent = 8
rank governor_state_inconsistent = 9
rank portfolio_limits_invalid = 10

abbrev pub lists : KillCondition → List KillCondition → Bool
lists k = any (λ (j : KillCondition). rank j == rank k)

abbrev pub is_found : ShadowLiveSafetyState → KillCondition → Check → Bool
is_found s k c = (rank c.0 == rank k) && c.1 s

any-found :
    (s : ShadowLiveSafetyState) (test : KillCondition → Bool) (cs : List Check)
    → any test (found s cs) ≡ any (λ (c : Check). test c.0 && c.1 s) cs
unfolding found
any-found s test [] = refl
any-found s test ((reason, predicate) ∷ cs) = ground (arith, any-found s test cs)

or_false : (b : Bool) → (b || false) ≡ b
or_false b = ground arith

any-checks : (s : ShadowLiveSafetyState) (k : KillCondition) → any (is_found s k) checks ≡ holds s k
any-checks s manual_kill_switch_active = or_false (holds s manual_kill_switch_active)
any-checks s mt5_not_connected = or_false (holds s mt5_not_connected)
any-checks s mt5_terminal_unavailable = or_false (holds s mt5_terminal_unavailable)
any-checks s mt5_account_unavailable = or_false (holds s mt5_account_unavailable)
any-checks s time_authority_not_confirmed = or_false (holds s time_authority_not_confirmed)
any-checks s portfolio_recovery_invalid = or_false (holds s portfolio_recovery_invalid)
any-checks s portfolio_snapshot_missing = or_false (holds s portfolio_snapshot_missing)
any-checks s lifecycle_state_invalid = or_false (holds s lifecycle_state_invalid)
any-checks s memory_state_inconsistent = or_false (holds s memory_state_inconsistent)
any-checks s governor_state_inconsistent = or_false (holds s governor_state_inconsistent)
any-checks s portfolio_limits_invalid = or_false (holds s portfolio_limits_invalid)

lists-checks :
    (s : ShadowLiveSafetyState) (k : KillCondition) → lists k (found s checks) ≡ holds s k
lists-checks s k = any-found s (λ j. rank j == rank k) checks ∙ any-checks s k

-- Checks in the order of their ranks.
abbrev Ascending : List Check → Type 0
Ascending [] = Unit
Ascending (c ∷ cs) = All (λ d. rank c.0 < rank d.0) cs × Ascending cs

found_above :
    (s : ShadowLiveSafetyState) (j : KillCondition) (n : ℕ) (cs : List Check)
    → All (λ c. n < rank c.0) cs
    → lists j (found s cs) ≡ true
    → n < rank j
unfolding found
found_above s j n [] a h = absurd (cc h)
found_above s j n ((reason, predicate) ∷ cs) a h = ground (arith, a.0, found_above s j n cs a.1)

found_least :
    (s : ShadowLiveSafetyState) (j k : KillCondition) (ks : List KillCondition) (cs : List Check)
    → Ascending cs
    → found s cs ≡ k ∷ ks
    → lists j (found s cs) ≡ true
    → rank k ≤ rank j
unfolding found
found_least s j k ks [] a h m = absurd (cc m)
found_least s j k ks ((reason, predicate) ∷ cs) a h m =
    ground (arith, found_above s j (rank reason) cs a.0, found_least s j k ks cs a.1)

checks-Ascending : Ascending checks
checks-Ascending = ground arith

-- The decision is explained by the state.
pub record IsExplained (s : ShadowLiveSafetyState) (d : ShadowLiveSafetyDecision) : Type 0 where
  pub lists_all : (k : KillCondition) → lists k d.kill_conditions ≡ holds s k
  pub blocks : d.hard_block ≡ not d.trading_allowed
  pub cause :
      ((d.trading_allowed ≡ true)
        × (d.reason ≡ global_safety_confirmed)
        × ((k : KillCondition) → holds s k ≡ false))
      ⊎ ((d.trading_allowed ≡ false)
          × (k : KillCondition) × (d.reason ≡ killed k)
          × (holds s k ≡ true)
          × ((j : KillCondition) → holds s j ≡ true → rank k ≤ rank j))

List-cases :
    (ks : List KillCondition)
    → (ks ≡ []) ⊎ ((k : KillCondition) × (rest : List KillCondition) × (ks ≡ k ∷ rest))
List-cases [] = inl refl
List-cases (k ∷ ks) = inr (k, ks, refl)

-- The decision lists exactly the kill conditions that hold; it blocks where it does not allow
-- trading; it allows trading if no kill condition holds, and else its reason is the most urgent of
-- those that hold.
pub evaluate_explains : (s : ShadowLiveSafetyState) → IsExplained s (evaluate s)
unfolding evaluate decide
evaluate_explains s = elim (List-cases (found s checks)) [
  | inl none_found ↦ rw none_found record {
    lists_all = λ k. ap (lists k) (sym none_found) ∙ lists-checks s k;
    blocks = refl;
    cause = inl (refl, refl, λ k. sym (lists-checks s k) ∙ ap (lists k) none_found);
  }
  | inr (k, ks, some_found) ↦ rw some_found record {
    lists_all = λ j. ap (lists j) (sym some_found) ∙ lists-checks s j;
    blocks = refl;
    cause = inr (
      refl,
      k,
      refl,
      sym (lists-checks s k)
          ∙ ap (lists k) some_found
          ∙ ap (λ b. b || lists k ks) (==_self (rank k)),
      λ j h. found_least s j k ks checks checks-Ascending some_found (lists-checks s j ∙ h),
    );
  }
]
