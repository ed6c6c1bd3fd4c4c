-- ===== src/RiskState/Position/Laws.antt =====
-- What `build_position` accepts and returns.
use mss_package.Common.{ap}
use mss_package.Common.{◌≡◌, ◌⊎◌, inl, inr, true, false, some, arith, Option-cases}
use mss_package.Common.Float.{Float}
use mss_package.Common.Text.{
  Text, codes, text_eq_iff, is_empty, strip, strip_idem, normalize, normalize_idem,
}
use mss_package.Profiles.{DirectionalExposureProfile, directional_exposure}
use mss_package.Profiles.Laws.{directional_exposure_sound}
use mss_package.RiskState.Position.{
  ShadowPortfolioPositionState, PositionArguments, is_prohibited, are_prices_ordered,
  has_nonpositive, state_of, build_position,
}

module _ {N : Type 0} (F : Float N) where
  open F use {lt, le}

  -- The arguments with which a state would be built again.
  abbrev pub arguments_of : ShadowPortfolioPositionState N → PositionArguments N
  arguments_of s = record {
    position_id = s.position_id;
    journal_path = s.journal_path;
    symbol = s.symbol;
    direction = s.direction;
    risk_percent = s.risk_percent;
    risk_amount = s.risk_amount;
    entry_price = s.entry_price;
    stop_loss = s.stop_loss;
    take_profit = s.take_profit;
    open_broker_epoch = s.open_broker_epoch;
  }

  -- What the state of an open position must meet.
  pub record IsSound (s : ShadowPortfolioPositionState N) : Type 0 where
    pub has_id : is_empty s.position_id ≡ false
    pub has_path : is_empty s.journal_path ≡ false
    pub not_sealed : is_prohibited s.journal_path ≡ false
    pub positive : has_nonpositive F (arguments_of s) ≡ false
    pub exposure :
        directional_exposure s.symbol s.direction
        ≡ some (record {
          symbol = s.symbol;
          direction = s.direction;
          asset_class = s.asset_class;
          exposure_tags = s.exposure_tags;
        })
    pub direction :
        ((s.direction ≡ codes "BUY")
          × (lt s.stop_loss s.entry_price ≡ true)
          × (lt s.entry_price s.take_profit ≡ true))
        ⊎ ((s.direction ≡ codes "SELL")
            × (lt s.take_profit s.entry_price ≡ true)
            × (lt s.entry_price s.stop_loss ≡ true))

  -- The passed tests of a call that returns a state.
  record IsAccepted (a : PositionArguments N) (e : DirectionalExposureProfile) : Type 0 where
    has_id : is_empty (strip a.position_id) ≡ false
    has_path : is_empty (strip a.journal_path) ≡ false
    not_sealed : is_prohibited (strip a.journal_path) ≡ false
    positive : has_nonpositive F a ≡ false
    found : directional_exposure (normalize a.symbol) (normalize a.direction) ≡ some e
    ordered :
        are_prices_ordered F (normalize a.direction) a.entry_price a.stop_loss a.take_profit ≡ true

  build_position_inv :
      (a : PositionArguments N) {s : ShadowPortfolioPositionState N}
      → build_position F a ≡ some s
      → (e : DirectionalExposureProfile) × IsAccepted a e × (s ≡ state_of F a e)
  unfolding build_position
  build_position_inv a h =
      elim (Option-cases (directional_exposure (normalize a.symbol) (normalize a.direction))) [
        | inl q ↦ ground (arith, q)
        | inr (e, q) ↦ (e, ground (arith, q), ground (arith, q))
      ]

  pub build_position_id :
      (a : PositionArguments N) {s : ShadowPortfolioPositionState N}
      → build_position F a ≡ some s
      → s.position_id ≡ strip a.position_id
  build_position_id a h =
      let (e, accepted, same) = build_position_inv a h in
      ap (λ (t : ShadowPortfolioPositionState N). t.position_id) same

  direction_of :
      (direction : Text) (entry_price stop_loss take_profit : N)
      → are_prices_ordered F direction entry_price stop_loss take_profit ≡ true
      → ((direction ≡ codes "BUY")
          × (lt stop_loss entry_price ≡ true)
          × (lt entry_price take_profit ≡ true))
        ⊎ ((direction ≡ codes "SELL")
            × (lt take_profit entry_price ≡ true)
            × (lt entry_price stop_loss ≡ true))
  unfolding are_prices_ordered
  direction_of direction entry_price stop_loss take_profit h =
      ground (arith, text_eq_iff direction (codes "BUY"), text_eq_iff direction (codes "SELL"))

  state_of-IsSound :
      (a : PositionArguments N) (e : DirectionalExposureProfile)
      → IsAccepted a e
      → IsSound (state_of F a e)
  unfolding has_nonpositive
  state_of-IsSound a e h =
      let (symbol, direction, _, _) =
        directional_exposure_sound (normalize a.symbol) (normalize a.direction) e h.found in
      record {
        has_id = h.has_id;
        has_path = h.has_path;
        not_sealed = h.not_sealed;
        positive = h.positive;
        exposure = ground (arith, normalize_idem a.symbol, normalize_idem a.direction);
        direction =
            direction_of (normalize a.direction) a.entry_price a.stop_loss a.take_profit h.ordered;
      }

  pub build_position-IsSound :
      (a : PositionArguments N) (s : ShadowPortfolioPositionState N)
      → build_position F a ≡ some s
      → IsSound s
  build_position-IsSound a s h =
      let (e, accepted, same) = build_position_inv a h in rw same (state_of-IsSound a e accepted)

  state_of_again :
      (a : PositionArguments N) (e : DirectionalExposureProfile)
      → IsAccepted a e
      → build_position F (arguments_of (state_of F a e)) ≡ some (state_of F a e)
  unfolding build_position has_nonpositive
  state_of_again a e h = ground (
    arith,
    strip_idem a.position_id,
    strip_idem a.journal_path,
    normalize_idem a.symbol,
    normalize_idem a.direction,
  )

  -- Building a state again from its own fields gives the same state.
  pub build_position_again :
      (a : PositionArguments N) (s : ShadowPortfolioPositionState N)
      → build_position F a ≡ some s
      → build_position F (arguments_of s) ≡ some s
  build_position_again a s h =
      let (e, accepted, same) = build_position_inv a h in rw same (state_of_again a e accepted)
