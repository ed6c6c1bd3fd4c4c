-- ===== src/Structure/Trend.antt =====
-- Which trend is detected, by what the lists of highs and lows end in.
use mss_package.Common.{◌≡◌, some, List, [], ◌∷◌, ◌++◌}
use mss_package.Common.Float.{Float}
use mss_package.Structure.{MarketStructure, trend}

module _ {N : Type 0} where
  -- The list ends in the two items.
  pub record EndsIn (prices : List N) (before last : N) : Type 0 where
    pub earlier : List N
    pub split : prices ≡ earlier ++ before ∷ last ∷ []

module _ {N : Type 0} (F : Float N) where
  -- A known structure, of the last two highs and the last two lows.
  pub record IsKnown (highs lows : List N) (m : MarketStructure N) : Type 0 where
    pub h1 : N
    pub h2 : N
    pub l1 : N
    pub l2 : N
    pub highs_end : EndsIn highs h1 h2
    pub lows_end : EndsIn lows l1 l2
    pub same :
        m ≡ record { state = trend F (h1, h2) (l1, l2); last_high = some h2; last_low = some l2 }
