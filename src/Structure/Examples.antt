-- ===== src/Structure/Examples.antt =====
-- Rising highs and lows, of both kinds of swings.
use mss_package.Common.{◌≡◌, refl, true, false, List, [], ◌∷◌}
use mss_package.Common.Fixed.{Fixed, fix, fixed}
use mss_package.Common.Text.{codes, text_eq}
use mss_package.Structure.{
  Swing, swing_point, legacy_swing, uptrend, high_of, low_of, prices_of, last_two, judge, detect,
}

abbrev swings : List (Swing Fixed)
swings =
    swing_point true false (fix 1100)
    ∷ swing_point false true (fix 1050)
    ∷ legacy_swing (codes "HIGH") (fix 1120)
    ∷ legacy_swing (codes "LOW") (fix 1080)
    ∷ []

rising : (detect fixed swings).state ≡ uptrend
unfolding detect judge last_two prices_of high_of low_of text_eq
rising = refl
