-- ===== src/PositionRecovery.antt =====
-- src/mss/analysis/shadow_position_recovery.py: the open position of one journal. Its `_read_events`
-- is that of the portfolio recovery, line by line.
pub mod Events
pub mod Laws
pub mod Keyed
use mss_package.Common.{
  ℕ, Bool, true, false, Option, none, some, List, [], ◌∷◌, length, if◌then◌else◌, Result, ok, err,
}
use mss_package.Common.Dict.{Dict}
use mss_package.Common.Float.{Float}
use mss_package.Journal.Chain.{JournalError, Verification, broken, chain_valid, File, verify}
use mss_package.Journal.Json.{Json, Library}
use mss_package.Recovery.{read_events}
use mss_package.VirtualPosition.Engine.{VirtualPosition}
use Events.{Outcome, proceed, invalid_event, escape, EventEscape, replay}

pub data PositionRecoveryReason : Type 0 where
  shadow_journal_integrity_failure invalid_position_open_event : PositionRecoveryReason
  no_open_shadow_position multiple_open_shadow_positions : PositionRecoveryReason
  open_shadow_position_recovered : PositionRecoveryReason

-- The exceptions that `recover` lets through: those of `verify`, of `json.loads` on the second
-- reading, and of the loop.
pub data RecoveryError : Type 0 where
  of_journal : JournalError → RecoveryError
  json_decode_error : RecoveryError
  of_event : EventEscape → RecoveryError

pub record ShadowPositionRecoveryResult (N : Type 0) : Type 0 where
  pub valid : Bool
  pub reason : PositionRecoveryReason
  pub event_count : ℕ
  pub open_position_count : ℕ
  pub position : Option (VirtualPosition N)
  pub real_order_send_allowed : Bool

module _ {N : Type 0} where
  abbrev pub recovery :
      Bool
      → PositionRecoveryReason
      → ℕ
      → ℕ
      → Option (VirtualPosition N)
      → ShadowPositionRecoveryResult N
  recovery valid reason events open_count position = record {
    valid = valid;
    reason = reason;
    event_count = events;
    open_position_count = open_count;
    position = position;
    real_order_send_allowed = false;
  }

  -- From the list of open positions.
  unfoldable pub conclude : ℕ → Dict (VirtualPosition N) → ShadowPositionRecoveryResult N
  conclude events [] = recovery true no_open_shadow_position events 0 none
  conclude events ((id, p) ∷ []) = recovery true open_shadow_position_recovered events 1 (some p)
  conclude events (e ∷ f ∷ d) =
      recovery false multiple_open_shadow_positions events (length (e ∷ f ∷ d)) none

  unfoldable pub after_replay :
      ℕ → Outcome N → Result RecoveryError (ShadowPositionRecoveryResult N)
  unfolding conclude
  after_replay events (proceed positions) = ok (conclude events positions)
  after_replay events invalid_event = ok (recovery false invalid_position_open_event events 0 none)
  after_replay events (escape e) = err (of_event e)

module _ {N : Type 0} (L : Library N) (F : Float N) where
  unfoldable pub recover_events :
      Option (List (Json N)) → Result RecoveryError (ShadowPositionRecoveryResult N)
  unfolding after_replay
  recover_events none = err json_decode_error
  recover_events (some events) = after_replay (length events) (replay L F [] events)

  unfoldable pub recover_verified :
      File
      → Result JournalError Verification
      → Result RecoveryError (ShadowPositionRecoveryResult N)
  unfolding recover_events
  recover_verified file (err e) = err (of_journal e)
  recover_verified file (ok (broken reason i n)) =
      ok (recovery false shadow_journal_integrity_failure n 0 none)
  recover_verified file (ok (chain_valid n sha)) = recover_events (read_events L file)

  -- `ShadowPositionRecovery.recover`
  unfoldable pub recover : File → Result RecoveryError (ShadowPositionRecoveryResult N)
  unfolding recover_verified
  recover file = recover_verified file (verify L file)
