-- ===== src/RiskState/Snapshot/Laws.antt =====
-- When a snapshot is valid, and what the governor sees of it.
use mss_package.Common.{◌≡◌, ◌≢◌, refl, ap, ◌↔◌, true, List, [], ◌∷◌, map, arith, All}
use mss_package.Common.Float.{Float, sum}
use mss_package.Governor.Portfolio.{
  PortfolioPosition, total_open_risk, evaluate, invalid_existing_directional_exposure,
}
use mss_package.Governor.Portfolio.Exposure.{has_valid_tags, AllValid}
use mss_package.Governor.Portfolio.Admission.{existing_tags_accepted}
use mss_package.Profiles.Laws.{directional_exposure_sound}
use mss_package.RiskState.Position.{ShadowPortfolioPositionState}
use mss_package.RiskState.Position.Laws.{IsSound}
use mss_package.RiskState.Snapshot.{
  ids_of, symbols_of, snapshot, governor_position, governor_positions,
}
use mss_package.RiskState.Snapshot.Sets.{Distinct, has_duplicates_iff}

module _ {N : Type 0} (F : Float N) where
  -- A snapshot is valid exactly if no identifier and no symbol occurs twice among its positions.
  pub snapshot_valid_iff :
      (positions : List (ShadowPortfolioPositionState N))
      → ((snapshot F positions).valid ≡ true)
        ↔ (Distinct (ids_of positions) × Distinct (symbols_of positions))
  unfolding snapshot
  snapshot_valid_iff positions =
      ground
        (arith, has_duplicates_iff (ids_of positions), has_duplicates_iff (symbols_of positions))

  risks-governor_position :
      (positions : List (ShadowPortfolioPositionState N))
      → map (λ (p : PortfolioPosition N). p.risk_percent) (map governor_position positions)
        ≡ map (λ p. p.risk_percent) positions
  risks-governor_position [] = refl
  risks-governor_position (p ∷ positions) =
      ap (λ xs. p.risk_percent ∷ xs) (risks-governor_position positions)

  -- The open risk that the governor computes is the total of the snapshot: of a valid one the sum
  -- over its positions, of any other zero.
  pub total_open_risk-governor_positions :
      (positions : List (ShadowPortfolioPositionState N))
      → total_open_risk F (governor_positions (snapshot F positions))
        ≡ (snapshot F positions).total_risk_percent
  unfolding snapshot governor_positions sum
  total_open_risk-governor_positions positions = ground (arith, risks-governor_position positions)

  sound-has_valid_tags :
      (p : ShadowPortfolioPositionState N)
      → IsSound F p
      → has_valid_tags (governor_position p) ≡ true
  sound-has_valid_tags p h =
      let (_, _, _, same) = directional_exposure_sound p.symbol p.direction _ h.exposure in
      rw same refl

  map-governor_position-AllValid :
      (positions : List (ShadowPortfolioPositionState N))
      → All (IsSound F) positions
      → AllValid (map governor_position positions)
  map-governor_position-AllValid [] h = tt
  map-governor_position-AllValid (p ∷ positions) h =
      (sound-has_valid_tags p h.0, map-governor_position-AllValid positions h.1)

  governor_positions-AllValid :
      (positions : List (ShadowPortfolioPositionState N))
      → All (IsSound F) positions
      → AllValid (governor_positions (snapshot F positions))
  unfolding snapshot governor_positions
  governor_positions-AllValid positions h =
      ground (arith, map-governor_position-AllValid positions h)

  -- Whatever the candidate, the governor never refuses it for the exposure tags of open positions
  -- that are sound.
  pub sound_positions_accepted :
      (c : PortfolioPosition N) (positions : List (ShadowPortfolioPositionState N))
      → All (IsSound F) positions
      → (evaluate F c (governor_positions (snapshot F positions))).reason
        ≢ invalid_existing_directional_exposure
  sound_positions_accepted c positions h =
      existing_tags_accepted F c (governor_positions (snapshot F positions))
        (governor_positions-AllValid positions h)
