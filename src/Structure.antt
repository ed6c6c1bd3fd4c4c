-- ===== src/Structure.antt =====
-- src/mss/analysis/structure_state.py: the trend that the last two highs and lows show.
pub mod Trend
mod Examples
use mss_package.Common.{Bool, true, false, ◌&&◌, Option, none, some, List, [], ◌∷◌, if◌then◌else◌}
use mss_package.Common.Float.{Float}
use mss_package.Common.Text.{Text, codes, text_eq}

pub data StructureState : Type 0 where
  unknown uptrend downtrend range : StructureState

pub record MarketStructure (N : Type 0) : Type 0 where
  pub state : StructureState
  pub last_high : Option N
  pub last_low : Option N

-- The three kinds of objects that the loop tells apart, by `hasattr`.
pub data Swing (N : Type 0) : Type 0 where
  swing_point : (is_high is_low : Bool) (price : N) → Swing N
  legacy_swing : (kind : Text) (price : N) → Swing N
  other_swing : Swing N

module _ {N : Type 0} where
  -- The price that is added to `highs`, if one is.
  unfoldable pub high_of : Swing N → Option N
  high_of (swing_point is_high is_low price) = if is_high then some price else none
  high_of (legacy_swing kind price) = if text_eq kind (codes "HIGH") then some price else none
  high_of other_swing = none

  -- The price that is added to `lows`, if one is.
  unfoldable pub low_of : Swing N → Option N
  low_of (swing_point is_high is_low price) = if is_low then some price else none
  low_of (legacy_swing kind price) =
      if text_eq kind (codes "HIGH")
      then none
      else if text_eq kind (codes "LOW")
      then some price
      else none
  low_of other_swing = none

  abbrev add : Option N → List N → List N
  add none prices = prices
  add (some p) prices = p ∷ prices

  -- The prices of `highs` and of `lows`, after the loop.
  unfoldable pub prices_of : (Swing N → Option N) → List (Swing N) → List N
  prices_of f [] = []
  prices_of f (s ∷ swings) = add (f s) (prices_of f swings)

  -- The last two items, where there are two.
  unfoldable pub last_two : List N → Option (N × N)
  last_two [] = none
  last_two (x ∷ []) = none
  last_two (x ∷ y ∷ []) = some (x, y)
  last_two (x ∷ y ∷ z ∷ zs) = last_two (y ∷ z ∷ zs)

module _ {N : Type 0} (F : Float N) where
  open F use {lt}

  abbrev pub trend : N × N → N × N → StructureState
  trend (h1, h2) (l1, l2) =
      if lt h1 h2 && lt l1 l2 then uptrend else if lt h2 h1 && lt l2 l1 then downtrend else range

  unfoldable pub judge : Option (N × N) → Option (N × N) → MarketStructure N
  judge none lows = record { state = unknown; last_high = none; last_low = none }
  judge (some highs) none = record { state = unknown; last_high = none; last_low = none }
  judge (some highs) (some lows) = record {
    state = trend highs lows;
    last_high = some highs.1;
    last_low = some lows.1;
  }

  -- `StructureStateEngine.detect`
  unfoldable pub detect : List (Swing N) → MarketStructure N
  detect swings = judge (last_two (prices_of high_of swings)) (last_two (prices_of low_of swings))
