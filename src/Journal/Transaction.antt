-- ===== src/Journal/Transaction.antt =====
-- `exclusive_transaction` and `_append_event_unlocked` of src/mss/analysis/shadow_trade_journal.py
-- for any number of processes: the lock on the journal, and the steps of the append under it, with
-- the steps of other processes in between.
pub mod Serial
mod Examples
use mss_package.Common.{ℕ, ◌+◌, Option, none, some, List, [], ◌∷◌, Result, ok, err, if◌then◌else◌}
use mss_package.Common.Int.{ℤ}
use mss_package.Common.Text.{Text, is_empty}
use mss_package.Journal.Append.{
  AppendError, event_type_required, position_id_required, unreadable,
  shadow_journal_integrity_failure, body_of, written, post_check,
}
use mss_package.Journal.Chain.{JournalError, Verification, broken, chain_valid, File, verify}
use mss_package.Journal.Json.{Fields, Library}

-- The arguments of an `append_event`.
pub record Request (N : Type 0) : Type 0 where
  pub event_type : Text
  pub position_id : Text
  pub broker_epoch : ℤ
  pub payload : Fields N

-- How far the call that holds the lock has come: before its first `verify`, before the write, and
-- before the second `verify`.
pub data Phase (N : Type 0) : Type 0 where
  locked : Phase N
  verified : Fields N → Phase N
  appended : Fields N → Phase N

-- The process that holds the lock, with its call.
pub record Holder (N : Type 0) : Type 0 where
  pub process : ℕ
  pub request : Request N
  pub phase : Phase N

-- How a call has ended: with SHADOW_JOURNAL_TRANSACTION_BUSY, with what `append_event` returns or
-- raises, or with the death of its process before or after the write.
pub data Ending (N : Type 0) : Type 0 where
  busy : Ending N
  finished : Result AppendError (Fields N) → Ending N
  died_before_write died_after_write : Ending N

pub record Entry (N : Type 0) : Type 0 where
  pub process : ℕ
  pub request : Request N
  pub ending : Ending N

-- The lock, the file, and the calls that have ended, the latest first.
pub record System (N : Type 0) : Type 0 where
  pub holder : Option (Holder N)
  pub file : File
  pub log : List (Entry N)

-- What happens next: a process calls `append_event`, the process that holds the lock goes on, or it
-- dies, and the operating system lets go of its lock.
pub data ProcessAction (N : Type 0) : Type 0 where
  call : ℕ → Request N → ProcessAction N
  go_on : ProcessAction N
  die : ProcessAction N

module _ {N : Type 0} where
  abbrev pub ended : ℕ → Request N → Ending N → Entry N
  ended process request ending = record { process = process; request = request; ending = ending }

  -- The call ends, and the lock is free.
  abbrev pub release : Holder N → Ending N → File → List (Entry N) → System N
  release h ending file log = record {
    holder = none;
    file = file;
    log = ended h.process h.request ending ∷ log;
  }

  abbrev pub held : Holder N → Phase N → File → List (Entry N) → System N
  held h phase file log = record {
    holder = some (record h { phase = phase });
    file = file;
    log = log;
  }

  -- The attempt to lock, which does not wait.
  unfoldable pub enter : ℕ → Request N → System N → System N
  enter process request s = elim s.holder [
    | none ↦ record s {
      holder = some (record { process = process; request = request; phase = locked });
    }
    | some h ↦ record s { log = ended process request busy ∷ s.log }
  ]

  unfoldable pub die_in : Holder N → Phase N → File → List (Entry N) → System N
  die_in h locked file log = release h died_before_write file log
  die_in h (verified body) file log = release h died_before_write file log
  die_in h (appended body) file log = release h died_after_write file log

module _ {N : Type 0} (L : Library N) where
  -- The part of `_append_event_unlocked` up to the event.
  unfoldable pub body_after :
      Request N → Result JournalError Verification → Result AppendError (Fields N)
  body_after r (err e) = err (unreadable e)
  body_after r (ok (broken reason i n)) = err (shadow_journal_integrity_failure reason)
  body_after r (ok (chain_valid n sha)) =
      ok (body_of (n + 1) sha r.event_type r.position_id r.broker_epoch r.payload)

  unfoldable pub prepare_body : Request N → File → Result AppendError (Fields N)
  unfolding body_after
  prepare_body r file =
      if is_empty r.event_type
      then err event_type_required
      else if is_empty r.position_id
      then err position_id_required
      else body_after r (verify L file)

  unfoldable pub after_prepare :
      Holder N → Result AppendError (Fields N) → File → List (Entry N) → System N
  after_prepare h (err e) file log = release h (finished (err e)) file log
  after_prepare h (ok body) file log = held h (verified body) file log

  -- The next step of the call that holds the lock.
  unfoldable pub go_on_in : Holder N → Phase N → File → List (Entry N) → System N
  unfolding after_prepare
  go_on_in h locked file log = after_prepare h (prepare_body h.request file) file log
  go_on_in h (verified body) file log = held h (appended body) (written L body file) log
  go_on_in h (appended body) file log =
      release h (finished (post_check L body (verify L file))) file log

  unfoldable pub act : ProcessAction N → System N → System N
  unfolding go_on_in
  act (call process request) s = enter process request s
  act go_on s = elim s.holder [ none ↦ s | some h ↦ go_on_in h h.phase s.file s.log ]
  act die s = elim s.holder [ none ↦ s | some h ↦ die_in h h.phase s.file s.log ]

  -- A schedule, from a journal that nobody holds.
  unfoldable pub run : List (ProcessAction N) → System N → System N
  unfolding act
  run [] s = s
  run (a ∷ actions) s = run actions (act a s)

  abbrev pub start : File → System N
  start file = record { holder = none; file = file; log = [] }
