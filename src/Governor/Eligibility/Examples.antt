-- ===== src/Governor/Eligibility/Examples.antt =====
-- The eligibility gate at a concrete quote.
use mss_package.Common.{◌≡◌, refl, ◌↔◌, true, false}
use mss_package.Common.Fixed.{fix, fixed, fixed_sub}
use mss_package.Governor.Eligibility.{evaluate}
use mss_package.Governor.Eligibility.Laws.{IsEligible, eligible_iff}

eligible_iff_example :
    ((evaluate fixed (fix 1100) (fix 1101) (fix 1100) (fix 1090) true true).eligible ≡ true)
    ↔ IsEligible fixed (fix 1100) (fix 1101) (fix 1100) (fix 1090) true true
eligible_iff_example = eligible_iff fixed (fix 1100) (fix 1101) (fix 1100) (fix 1090) true true

tight_spread_eligible :
    (evaluate fixed (fix 1100) (fix 1101) (fix 1100) (fix 1090) true true).eligible ≡ true
unfolding evaluate fixed_sub
tight_spread_eligible = refl

wide_spread_refused :
    (evaluate fixed (fix 1100) (fix 1103) (fix 1100) (fix 1090) true true).eligible ≡ false
unfolding evaluate fixed_sub
wide_spread_refused = refl
