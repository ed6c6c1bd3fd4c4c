-- ===== src/Governor/Portfolio/Examples.antt =====
-- The governor at concrete positions.
use mss_package.Common.{◌≡◌, refl, ◌↔◌, true, [], ◌∷◌, ◌++◌, arith, ok}
use mss_package.Common.Dict.{lookup, insert}
use mss_package.Common.Fixed.{Fixed, fix, fixed, fixed_add}
use mss_package.Common.Float.{sum}
use mss_package.Common.Text.{codes, text_eq, split_once, normalize}
use mss_package.Governor.Tags.{normalize_exposure_tags}
use mss_package.Governor.Portfolio.{PortfolioPosition, same_class_count, evaluate, judge_exposure}
use mss_package.Governor.Portfolio.Admission.{IsAdmissible, allowed_iff}
use mss_package.Governor.Portfolio.Invariant.{IsWithinLimits, opened-IsWithinLimits}

abbrev gold : PortfolioPosition Fixed
gold = record {
  symbol = codes "XAUUSD";
  asset_class = codes "METALS";
  risk_percent = fix 750;
  exposure_tags = codes "SHORT:XAU" ∷ codes "LONG:USD" ∷ [];
}

abbrev euro : PortfolioPosition Fixed
euro = record {
  symbol = codes "EURUSD";
  asset_class = codes "FOREX";
  risk_percent = fix 500;
  exposure_tags = codes " long:EUR" ∷ codes "" ∷ codes "SHORT:USD" ∷ [];
}

euro_allowed : (evaluate fixed euro (gold ∷ [])).allowed ≡ true
unfolding evaluate judge_exposure same_class_count normalize_exposure_tags normalize split_once
    text_eq sum lookup insert fixed_add
euro_allowed = refl

euro_tags :
    normalize_exposure_tags euro.exposure_tags ≡ ok (codes "LONG:EUR" ∷ codes "SHORT:USD" ∷ [])
unfolding normalize_exposure_tags normalize split_once text_eq
euro_tags = refl

allowed_iff_example :
    ((evaluate fixed euro (gold ∷ [])).allowed ≡ true) ↔ IsAdmissible fixed euro (gold ∷ [])
allowed_iff_example = allowed_iff fixed euro (gold ∷ [])

gold-IsWithinLimits : IsWithinLimits fixed (gold ∷ [])
unfolding normalize_exposure_tags normalize split_once text_eq sum fixed_add
gold-IsWithinLimits = record {
  count = omega arith;
  total = refl;
  risks = ((refl, refl), tt);
  tags = (refl, tt);
  apart = (tt, tt);
}

opened-IsWithinLimits_example : IsWithinLimits fixed (gold ∷ [] ++ euro ∷ [])
opened-IsWithinLimits_example =
    opened-IsWithinLimits fixed euro (gold ∷ []) gold-IsWithinLimits euro_allowed
