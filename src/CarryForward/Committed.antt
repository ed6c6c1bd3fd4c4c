-- ===== src/CarryForward/Committed.antt =====
-- When an import replaces the current journal, and by what.
use mss_package.Common.{◌≡◌, ◌⊎◌, Bool, true, false, none, List, [], ok, err}
use mss_package.Common.Float.{Float}
use mss_package.Common.Int.{ℤ}
use mss_package.Common.Text.{Text, codes, is_empty}
use mss_package.Journal.Append.{append_event}
use mss_package.Journal.Chain.{File}
use mss_package.Journal.Json.{Fields, Library}
use mss_package.CarryForward.{
  CarryAction, imported, CarryError, ShadowPortfolioCarryForwardResult, CarryArguments, file_sha256,
  file_state,
}
use mss_package.CarryForward.Commit.{after_commit}
use mss_package.CarryForward.Events.{is_imported}
use mss_package.CarryForward.Import.{
  Meanwhile, Import, imported_payload, is_lifecycle_recovered, is_risk_recovered,
}
use mss_package.CarryForward.Source.{Source, found, preflight}
use mss_package.PositionRecovery.{ShadowPositionRecoveryResult, recover as recover_position}
use mss_package.Recovery.{ShadowPortfolioRiskRecoveryResult, recover as recover_risk}
use mss_package.Recovery.Replay.{event_text}

abbrev pub is_imported_action : CarryAction → Bool
is_imported_action imported = true
is_imported_action _ = false

-- The call has not written the current journal, and does not say that it has.
abbrev pub IsUntouched : File → Meanwhile → Import → Type 0
IsUntouched current m (r, file) =
    ((file ≡ current) ⊎ (file ≡ m.current_then))
    × (((e : CarryError) × (r ≡ err e))
        ⊎ ((q : ShadowPortfolioCarryForwardResult) × (r ≡ ok q)
            × (is_imported_action q.action ≡ false)))

module _ {N : Type 0} (L : Library N) (F : Float N) (bytes_sha256 : List Text → Text)
    (staging_path : Text) (a : CarryArguments) (m : Meanwhile) (predecessor current : File) where
  abbrev pub before : Text
  before = file_sha256 bytes_sha256 predecessor

  -- The current journal has been replaced by a staged one.
  pub record IsCommitted (out : Import) : Type 0 where
    pub source : Source N
    pub source_found : preflight L (is_empty before) a predecessor current ≡ ok (found source)
    pub is_new : is_imported L source.sha a.expected_position_id source.current_events ≡ false
    pub pristine : source.current_events ≡ []
    pub broker_epoch : ℤ
    pub event : Fields N
    pub staged : File
    pub appended :
        append_event L
          (codes "POSITION_OPENED")
          a.expected_position_id
          broker_epoch
          (imported_payload a source before)
          none
        ≡ (ok event, staged)
    pub lifecycle : ShadowPositionRecoveryResult N
    pub position_recovered : recover_position L F staged ≡ ok lifecycle
    pub position_expected : is_lifecycle_recovered a lifecycle ≡ true
    pub risk : ShadowPortfolioRiskRecoveryResult N
    pub risk_recovered : recover_risk L F staging_path staged ≡ ok risk
    pub risk_expected : is_risk_recovered a risk ≡ true
    pub predecessor_same : file_sha256 bytes_sha256 m.predecessor_then ≡ before
    pub current_same : file_state bytes_sha256 m.current_then ≡ file_state bytes_sha256 current
    pub result : out ≡ (
      ok (
          after_commit bytes_sha256 a m source.sha before
            (event_text L (codes "event_sha256") event)
            (file_sha256 bytes_sha256 staged)
            (m.current_after staged)),
      m.current_after staged,
    )

  abbrev Decided : Import → Type 0
  Decided out = IsUntouched current m out ⊎ IsCommitted out

  module _ (source : Source N)
      (f : preflight L (is_empty before) a predecessor current ≡ ok (found source)) where
    module _ (new : is_imported L source.sha a.expected_position_id source.current_events ≡ false)
        (pristine : source.current_events ≡ []) (epoch : ℤ) where
      module _ (event : Fields N) (staged : File)
          (appended : append_event L
              (codes "POSITION_OPENED")
              a.expected_position_id
              epoch
              (imported_payload a source before)
              none
            ≡ (ok event, staged)) where
        abbrev target : Text
        target = event_text L (codes "event_sha256") event
