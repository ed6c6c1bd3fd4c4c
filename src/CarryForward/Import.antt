-- ===== src/CarryForward/Import.antt =====
-- `inspect_consumption` and `import_open_position` of
-- src/mss/analysis/shadow_portfolio_carry_forward.py.
use mss_package.Common.{
  Bool, true, false, not, ◌&&◌, ◌==◌, Option, none, some, List, [], ◌∷◌, is_some, Result, ok, ◌>>=◌,
  if◌then◌else◌,
}
use mss_package.Common.Text.{Text, codes, text_eq}
use mss_package.Journal.Chain.{File}
use mss_package.Journal.Json.{
  Json, null, string, boolean, object, Fields, end, field, Library, get, with_field,
}
use mss_package.CarryForward.{
  predecessor_position_already_consumed, predecessor_position_not_yet_consumed, CarryError,
  ShadowPortfolioCarryForwardResult, ShadowPortfolioCarryForwardConsumptionResult, CarryArguments,
  not_inspected,
}
use mss_package.CarryForward.Events.{is_imported}
use mss_package.CarryForward.Source.{Source, Preflight, refused, found, preflight}
use mss_package.PositionRecovery.{ShadowPositionRecoveryResult}
use mss_package.Recovery.{ShadowPortfolioRiskRecoveryResult}
use mss_package.RiskState.Position.{ShadowPortfolioPositionState}
use mss_package.RiskState.Snapshot.{ShadowPortfolioSnapshot}
use mss_package.VirtualPosition.Engine.{VirtualPosition}

-- What else happens to the files while the import runs: how the predecessor and the current journal
-- are before the commit, whether the replacement of the file works, and how they are after it.
pub record Meanwhile : Type 0 where
  pub predecessor_then : File
  pub current_then : File
  pub replaced : Bool
  pub predecessor_after : File
  pub current_after : File → File

-- What the import returns or raises, with the current journal after it.
abbrev pub Import : Type 0
Import = Result CarryError ShadowPortfolioCarryForwardResult × File

abbrev pub required_payload_fields : List Text
required_payload_fields =
    codes "symbol"
    ∷ codes "direction"
    ∷ codes "volume"
    ∷ codes "entry_price"
    ∷ codes "stop_loss"
    ∷ codes "take_profit"
    ∷ codes "initial_risk_price"
    ∷ codes "risk_percent"
    ∷ codes "risk_amount"
    ∷ []

module _ {N : Type 0} (L : Library N) where
  -- The end of `inspect_consumption`.
  unfoldable pub inspected :
      CarryArguments → Preflight N → ShadowPortfolioCarryForwardConsumptionResult
  inspected a (refused why) = not_inspected why
  inspected a (found source) =
      let consumed = is_imported L source.sha a.expected_position_id source.current_events in
      record {
        valid = true;
        consumed = consumed;
        reason =
            if consumed
            then predecessor_position_already_consumed
            else predecessor_position_not_yet_consumed;
        position_id = a.expected_position_id;
        symbol = a.expected_symbol;
        source_event_sha256 = source.sha;
      }

  -- `inspect_consumption`
  unfoldable pub inspect_consumption :
      CarryArguments → File → File → Result CarryError ShadowPortfolioCarryForwardConsumptionResult
  unfolding inspected
  inspect_consumption a predecessor current =
      preflight L (not (is_some predecessor)) a predecessor current >>= λ p. ok (inspected a p)

module _ {N : Type 0} where
  abbrev pub or_null : Option (Json N) → Json N
  or_null none = null
  or_null (some v) = v

  -- The entry that names the source.
  unfoldable pub continuity_import : CarryArguments → Source N → Text → Fields N
  continuity_import a source before =
      field (codes "source_position_id") (string a.expected_position_id) (
        field (codes "source_event_sha256") (string source.sha) (
          field (codes "source_event_sequence")
            (or_null (get (codes "event_sequence") source.event))
            (field (codes "source_schema_version")
              (or_null (get (codes "schema_version") source.event))
              (field (codes "source_journal_path") (string a.predecessor_journal_path) (
                field (codes "source_journal_sha256") (string before) (
                  field (codes "predecessor_read_only") (boolean true) (
                    field (codes "performance_evidence") (boolean false) (
                      field (codes "carry_forward_version")
                        (string (codes "MSS_SPRINT92H14_5B_1_SHADOW_PORTFOLIO_CARRY_FORWARD_V1"))
                        end))))))))

  -- `imported_payload`
  unfoldable pub imported_payload : CarryArguments → Source N → Text → Fields N
  imported_payload a source before =
      with_field (codes "continuity_import") (object (continuity_import a source before))
        source.payload

  -- The tests of the first recovery.
  unfoldable pub is_lifecycle_of : CarryArguments → Option (VirtualPosition N) → Bool
  is_lifecycle_of a none = false
  is_lifecycle_of a (some p) =
      text_eq p.position_id a.expected_position_id && text_eq p.symbol a.expected_symbol

  unfoldable pub is_lifecycle_recovered : CarryArguments → ShadowPositionRecoveryResult N → Bool
  unfolding is_lifecycle_of
  is_lifecycle_recovered a r = r.valid && r.open_position_count == 1 && is_lifecycle_of a r.position

  -- The tests of the second recovery.
  unfoldable pub is_single_of : CarryArguments → List (ShadowPortfolioPositionState N) → Bool
  is_single_of a [] = false
  is_single_of a (p ∷ []) =
      text_eq p.position_id a.expected_position_id && text_eq p.symbol a.expected_symbol
  is_single_of a (p ∷ q ∷ ps) = false

  unfoldable pub is_snapshot_of : CarryArguments → Option (ShadowPortfolioSnapshot N) → Bool
  unfolding is_single_of
  is_snapshot_of a none = false
  is_snapshot_of a (some s) = is_single_of a s.positions

  unfoldable pub is_risk_recovered : CarryArguments → ShadowPortfolioRiskRecoveryResult N → Bool
  unfolding is_snapshot_of
  is_risk_recovered a r = r.valid && r.open_position_count == 1 && is_snapshot_of a r.snapshot
