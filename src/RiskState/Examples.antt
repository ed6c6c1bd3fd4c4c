-- ===== src/RiskState/Examples.antt =====
-- Risk states and snapshots at concrete positions.
use mss_package.Common.{◌≡◌, ◌≢◌, refl, ◌↔◌, true, some, [], ◌∷◌}
use mss_package.Common.Dict.{lookup}
use mss_package.Common.Fixed.{Fixed, fix, fixed}
use mss_package.Common.Int.{pos}
use mss_package.Common.Text.{codes, text_eq, strip, normalize}
use mss_package.Governor.Portfolio.{
  PortfolioPosition, total_open_risk, evaluate, invalid_existing_directional_exposure,
}
use mss_package.Profiles.{profiles, get, directional_exposure}
use mss_package.RiskState.Position.{
  ShadowPortfolioPositionState, PositionArguments, is_prohibited, are_prices_ordered,
  has_nonpositive, build_position,
}
use mss_package.RiskState.Position.Laws.{
  IsSound, arguments_of, build_position-IsSound, build_position_again,
}
use mss_package.RiskState.Snapshot.{ids_of, symbols_of, snapshot, governor_positions}
use mss_package.RiskState.Snapshot.Laws.{
  snapshot_valid_iff, total_open_risk-governor_positions, sound_positions_accepted,
}
use mss_package.RiskState.Snapshot.Sets.{Distinct}

abbrev buy_euro : PositionArguments Fixed
buy_euro = record {
  position_id = codes " P1 ";
  journal_path = codes "shadow_data\\live.jsonl";
  symbol = codes "eurusd";
  direction = codes "buy";
  risk_percent = fix 500;
  risk_amount = fix 50000;
  entry_price = fix 1100;
  stop_loss = fix 1090;
  take_profit = fix 1120;
  open_broker_epoch = pos 1780000000;
}

abbrev pub euro_state : ShadowPortfolioPositionState Fixed
euro_state = record {
  position_id = codes "P1";
  journal_path = codes "shadow_data\\live.jsonl";
  symbol = codes "EURUSD";
  direction = codes "BUY";
  risk_percent = fix 500;
  risk_amount = fix 50000;
  asset_class = codes "FOREX";
  exposure_tags = codes "LONG:EUR" ∷ codes "SHORT:USD" ∷ [];
  entry_price = fix 1100;
  stop_loss = fix 1090;
  take_profit = fix 1120;
  open_broker_epoch = pos 1780000000;
}

euro_built : build_position fixed buy_euro ≡ some euro_state
unfolding build_position is_prohibited are_prices_ordered has_nonpositive directional_exposure get
    profiles lookup text_eq normalize strip
euro_built = refl

euro-IsSound : IsSound fixed euro_state
euro-IsSound = build_position-IsSound fixed buy_euro euro_state euro_built

build_position_again_example :
    build_position fixed (arguments_of fixed euro_state) ≡ some euro_state
build_position_again_example = build_position_again fixed buy_euro euro_state euro_built

snapshot_valid_iff_example :
    ((snapshot fixed (euro_state ∷ [])).valid ≡ true)
    ↔ (Distinct (ids_of (euro_state ∷ [])) × Distinct (symbols_of (euro_state ∷ [])))
snapshot_valid_iff_example = snapshot_valid_iff fixed (euro_state ∷ [])

total_open_risk-governor_positions_example :
    total_open_risk fixed (governor_positions (snapshot fixed (euro_state ∷ [])))
    ≡ (snapshot fixed (euro_state ∷ [])).total_risk_percent
total_open_risk-governor_positions_example =
    total_open_risk-governor_positions fixed (euro_state ∷ [])

abbrev gold : PortfolioPosition Fixed
gold = record {
  symbol = codes "XAUUSD";
  asset_class = codes "METALS";
  risk_percent = fix 750;
  exposure_tags = codes "SHORT:XAU" ∷ [];
}

sound_positions_accepted_example :
    (evaluate fixed gold (governor_positions (snapshot fixed (euro_state ∷ [])))).reason
    ≢ invalid_existing_directional_exposure
sound_positions_accepted_example =
    sound_positions_accepted fixed gold (euro_state ∷ []) (euro-IsSound, tt)
