-- ===== src/Journal/Append.antt =====
-- `append_event` of src/mss/analysis/shadow_trade_journal.py, inside the transaction that the lock
-- gives it: no other process writes to the file meanwhile.
pub mod Laws
pub mod Success
mod Examples
use mss_package.Common.{
  ℕ, suc, ◌+◌, Bool, true, false, not, Option, none, some, List, [], ◌∷◌, ◌++◌, Result, ok, err,
  if◌then◌else◌,
}
use mss_package.Common.Int.{ℤ, pos}
use mss_package.Common.Text.{Text, codes, text_eq, is_empty}
use mss_package.Journal.Json.{
  Json, string, boolean, integer, object, Fields, end, field, Library, with_field,
}
use mss_package.Journal.Chain.{
  JournalError, ChainReason, Verification, broken, chain_valid, File, lines_of, verify,
}

pub data AppendError : Type 0 where
  event_type_required position_id_required : AppendError
  -- An exception of `verify`.
  unreadable : JournalError → AppendError
  shadow_journal_integrity_failure : ChainReason → AppendError
  post_append_journal_verify_failure post_append_hash_mismatch : AppendError

-- `VERSION`
abbrev pub version : Text
version = codes "MSS_SPRINT92H14_2_SHADOW_TRADE_JOURNAL_V1"

module _ {N : Type 0} where
  -- The `audit` entry.
  abbrev pub audit : Fields N
  audit = field (codes "shadow_only") (boolean true) (
      field (codes "real_order_send_allowed") (boolean false) (
        field (codes "order_send_called") (boolean false) (
          field (codes "order_check_called") (boolean false) (
            field (codes "true_oos_data_accessed") (boolean false)
              (field (codes "true_oos_artifacts_modified") (boolean false) end)))))

  -- `body`
  unfoldable pub body_of : ℕ → Text → Text → Text → ℤ → Fields N → Fields N
  body_of event_sequence previous_sha event_type position_id broker_epoch payload =
      field (codes "schema_version") (string version) (
        field (codes "event_sequence") (integer (pos event_sequence)) (
          field (codes "event_type") (string event_type) (
            field (codes "position_id") (string position_id) (
              field (codes "broker_epoch") (integer broker_epoch) (
                field (codes "previous_event_sha256") (string previous_sha) (
                  field (codes "payload") (object payload)
                    (field (codes "audit") (object audit) end)))))))

module _ {N : Type 0} (L : Library N) where
  open L use {canonical_json, sha256}

  abbrev pub body_sha : Fields N → Text
  body_sha body = sha256 (canonical_json (object body))

  -- `event = dict(body)`, with its hash added.
  abbrev pub sealed : Fields N → Fields N
  sealed body = with_field (codes "event_sha256") (string (body_sha body)) body

  -- The file after the write of one line.
  abbrev pub written : Fields N → File → File
  written body file = some (lines_of file ++ canonical_json (object (sealed body)) ∷ [])

  -- The checks after the write.
  unfoldable pub post_check :
      Fields N → Result JournalError Verification → Result AppendError (Fields N)
  post_check body (err e) = err (unreadable e)
  post_check body (ok (broken reason i n)) = err post_append_journal_verify_failure
  post_check body (ok (chain_valid n sha)) =
      if not (text_eq sha (body_sha body)) then err post_append_hash_mismatch else ok (sealed body)

  -- The write and its checks.
  unfoldable pub write : Fields N → File → Result AppendError (Fields N) × File
  unfolding post_check
  write body file = (post_check body (verify L (written body file)), written body file)

  -- The part after the first `verify`.
  unfoldable pub append_verified :
      Text
      → Text
      → ℤ
      → Fields N
      → Result JournalError Verification
      → File
      → Result AppendError (Fields N) × File
  unfolding write
  append_verified event_type position_id broker_epoch payload (err e) file =
      (err (unreadable e), file)
  append_verified event_type position_id broker_epoch payload (ok (broken reason i n)) file =
      (err (shadow_journal_integrity_failure reason), file)
  append_verified event_type position_id broker_epoch payload (ok (chain_valid n sha)) file =
      write (body_of (n + 1) sha event_type position_id broker_epoch payload) file

  -- `ShadowTradeJournal.append_event`, with the file after it.
  unfoldable pub append_event :
      Text → Text → ℤ → Fields N → File → Result AppendError (Fields N) × File
  unfolding append_verified
  append_event event_type position_id broker_epoch payload file =
      if is_empty event_type
      then (err event_type_required, file)
      else if is_empty position_id
      then (err position_id_required, file)
      else append_verified event_type position_id broker_epoch payload (verify L file) file
