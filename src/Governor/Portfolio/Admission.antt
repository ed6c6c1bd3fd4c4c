-- ===== src/Governor/Portfolio/Admission.antt =====
-- When `PortfolioRiskGovernor.evaluate` allows a candidate.
use mss_package.Common.{
  ◌+◌, ◌≡◌, ◌≢◌, ◌↔◌, ◌≤◌, true, false, List, [], arith, All, any, inl, inr, length, Result-cases,
}
use mss_package.Common.Float.{Float, nought}
use mss_package.Common.Text.{Text}
use mss_package.Governor.Tags.{normalize_exposure_tags}
use mss_package.Governor.Portfolio.{
  PortfolioPosition, max_risk_per_trade_percent, max_total_open_risk_percent, total_open_risk,
  evaluate, judge_exposure, count_positions, invalid_existing_directional_exposure,
}
use mss_package.Governor.Portfolio.Exposure.{
  AllValid, tags_of, has_valid_tags, is_held, count_positions-AllValid, count_positions_total,
  is_concentrated-eq-is_held,
}
use mss_package.Governor.Portfolio.Limits.{IsSeparate, IsSeparate-iff}

module _ {N : Type 0} (F : Float N) where
  open F use {lt, le, add}

  -- What a candidate must meet beside the open positions.
  pub record IsAdmissible (c : PortfolioPosition N) (positions : List (PortfolioPosition N))
      : Type 0 where
    pub valid_tags : has_valid_tags c ≡ true
    pub positive : le c.risk_percent (nought F) ≡ false
    pub per_trade : lt (max_risk_per_trade_percent F) c.risk_percent ≡ false
    pub total :
        lt (max_total_open_risk_percent F) (add (total_open_risk F positions) c.risk_percent)
        ≡ false
    pub room : length positions + 1 ≤ 2
    pub existing_tags : AllValid positions
    pub separate : All (λ p. IsSeparate p c) positions

  judge_exposure_iff :
      (c : PortfolioPosition N) (tags : List Text) (positions : List (PortfolioPosition N))
      → ((judge_exposure F c tags positions).allowed ≡ true)
        ↔ (AllValid positions × (any (λ (t : Text). is_held t positions) tags ≡ false))
  unfolding judge_exposure
  judge_exposure_iff c tags positions = elim (Result-cases (count_positions [] positions)) [
    | inl (counts, q) ↦
        let valid = count_positions-AllValid [] positions q in
        ground (arith, q, valid, is_concentrated-eq-is_held tags positions q)
    | inr (e, q) ↦ (
      λ h. ground (arith, q),
      λ h. let (counts, r) = count_positions_total [] positions h.0 in ground (arith, q, r),
    )
  ]

  -- The governor allows a candidate exactly if its tags and those of the open positions can be
  -- normalised, its risk is within the limit for one trade and for the total, at most one position
  -- is open, and every open position differs from it in symbol, asset class and all exposure tags.
  pub allowed_iff :
      (c : PortfolioPosition N) (positions : List (PortfolioPosition N))
      → ((evaluate F c positions).allowed ≡ true) ↔ IsAdmissible c positions
  unfolding evaluate
  allowed_iff c positions = elim (Result-cases (normalize_exposure_tags c.exposure_tags)) [
    | inr (e, q) ↦ (λ h. ground (arith, q), λ h. ground (arith, q, h.valid_tags))
    | inl (tags, q) ↦
        let same : tags_of c ≡ tags = ground (arith, q) in
        let limits = IsSeparate-iff c positions in
        let exposure = judge_exposure_iff c tags positions in
        (
          λ h. ground (arith, q, same, limits, exposure),
          λ h. ground (arith, q, same, limits, exposure),
        )
  ]

  -- Only tags that cannot be normalised make the governor refuse for the open positions' tags.
  pub existing_tags_accepted :
      (c : PortfolioPosition N) (positions : List (PortfolioPosition N))
      → AllValid positions
      → (evaluate F c positions).reason ≢ invalid_existing_directional_exposure
  unfolding evaluate judge_exposure
  existing_tags_accepted c positions h e =
      let (counts, q) = count_positions_total [] positions h in ground (arith, q)
