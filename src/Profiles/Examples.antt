-- ===== src/Profiles/Examples.antt =====
-- The registry at concrete symbols.
use mss_package.Common.{◌≡◌, refl, ◌⊎◌, some, none, ok, [], ◌∷◌}
use mss_package.Common.Dict.{lookup}
use mss_package.Common.Text.{codes, text_eq, normalize}
use mss_package.Governor.Tags.{normalize_exposure_tags}
use mss_package.Profiles.{DirectionalExposureProfile, profiles, get, directional_exposure}
use mss_package.Profiles.Laws.{directional_exposure_sound}

abbrev sell_gold : DirectionalExposureProfile
sell_gold = record {
  symbol = codes "XAUUSD";
  direction = codes "SELL";
  asset_class = codes "METALS";
  exposure_tags = codes "SHORT:XAU" ∷ codes "LONG:USD" ∷ [];
}

gold_exposure : directional_exposure (codes " xauusd ") (codes "Sell") ≡ some sell_gold
unfolding directional_exposure get profiles lookup text_eq normalize
gold_exposure = refl

no_exposure : directional_exposure (codes "XAUUSD") (codes "HOLD") ≡ none
unfolding directional_exposure get profiles lookup text_eq normalize
no_exposure = refl

directional_exposure_sound_example :
    (codes "XAUUSD" ≡ normalize (codes " xauusd "))
    × (codes "SELL" ≡ normalize (codes "Sell"))
    × ((codes "SELL" ≡ codes "BUY") ⊎ (codes "SELL" ≡ codes "SELL"))
    × (normalize_exposure_tags (codes "SHORT:XAU" ∷ codes "LONG:USD" ∷ [])
        ≡ ok (codes "SHORT:XAU" ∷ codes "LONG:USD" ∷ []))
directional_exposure_sound_example =
    directional_exposure_sound (codes " xauusd ") (codes "Sell") sell_gold gold_exposure
