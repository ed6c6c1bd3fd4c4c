-- ===== src/Governor/Portfolio/Invariant.antt =====
-- The limits as an invariant of the open positions, and what every verdict reports.
use mathlib.Core.List.{foldl-append, map-append}
use mss_package.Common.{
  ◌+◌, ◌≤◌, ◌≡◌, ◌↔◌, true, false, List, [], ◌∷◌, ◌++◌, arith, All, All-append, length,
  length-append,
}
use mss_package.Common.Float.{Float, nought, sum}
use mss_package.Governor.Portfolio.{
  PortfolioPosition, max_risk_per_trade_percent, max_total_open_risk_percent, total_open_risk,
  evaluate, judge_exposure, portfolio_risk_allowed,
}
use mss_package.Governor.Portfolio.Exposure.{AllValid, has_valid_tags}
use mss_package.Governor.Portfolio.Limits.{IsSeparate}
use mss_package.Governor.Portfolio.Admission.{allowed_iff}

module _ {N : Type 0} where
  -- Every two positions differ in symbol, asset class and exposure tags.
  abbrev pub Apart : List (PortfolioPosition N) → Type 0
  Apart [] = Unit
  Apart (p ∷ positions) = All (λ c. IsSeparate p c) positions × Apart positions

  Apart-append :
      (positions : List (PortfolioPosition N)) (c : PortfolioPosition N)
      → Apart positions
      → All (λ p. IsSeparate p c) positions
      → Apart (positions ++ c ∷ [])
  Apart-append [] c h s = (tt, tt)
  Apart-append (p ∷ positions) c h s = (
    All-append (λ x. IsSeparate p x) positions (c ∷ []) h.0 (s.0, tt),
    Apart-append positions c h.1 s.1,
  )

module _ {N : Type 0} (F : Float N) where
  open F use {lt, le, add}

  -- The risk of one position lies within the limit for a trade.
  abbrev pub IsRiskWithin : PortfolioPosition N → Type 0
  IsRiskWithin p =
      (le p.risk_percent (nought F) ≡ false)
      × (lt (max_risk_per_trade_percent F) p.risk_percent ≡ false)

  -- The limits of the governor, of the open positions as a whole.
  pub record IsWithinLimits (positions : List (PortfolioPosition N)) : Type 0 where
    pub count : length positions ≤ 2
    pub total : lt (max_total_open_risk_percent F) (total_open_risk F positions) ≡ false
    pub risks : All IsRiskWithin positions
    pub tags : AllValid positions
    pub apart : Apart positions

  total_open_risk-append :
      (positions : List (PortfolioPosition N)) (c : PortfolioPosition N)
      → total_open_risk F (positions ++ c ∷ []) ≡ add (total_open_risk F positions) c.risk_percent
  unfolding sum
  total_open_risk-append positions c = simp (map-append, foldl-append)

  -- A candidate that is allowed can be opened: the limits hold of the larger portfolio.
  pub opened-IsWithinLimits :
      (c : PortfolioPosition N) (positions : List (PortfolioPosition N))
      → IsWithinLimits positions
      → (evaluate F c positions).allowed ≡ true
      → IsWithinLimits (positions ++ c ∷ [])
  opened-IsWithinLimits c positions h allowed =
      let a = (allowed_iff F c positions).0 allowed in
      record {
        count = rw length-append a.room;
        total = rw (total_open_risk-append positions c) a.total;
        risks = All-append IsRiskWithin positions (c ∷ []) h.risks ((a.positive, a.per_trade), tt);
        tags =
            All-append (λ p. has_valid_tags p ≡ true) positions (c ∷ []) a.existing_tags
              (a.valid_tags, tt);
        apart = Apart-append positions c h.apart a.separate;
      }

  -- Every verdict, allowed or not, reports the open risk and both counts, and names
  -- `PORTFOLIO_RISK_ALLOWED` exactly if it allows the candidate.
  evaluate_reports :
      (c : PortfolioPosition N) (positions : List (PortfolioPosition N))
      → let r = evaluate F c positions in
        ((r.allowed ≡ true) ↔ (r.reason ≡ portfolio_risk_allowed))
        × (r.total_open_risk_percent ≡ total_open_risk F positions)
        × (r.open_position_count ≡ length positions)
        × (r.projected_position_count ≡ length positions + 1)
  unfolding evaluate judge_exposure
  evaluate_reports c positions = ground arith
