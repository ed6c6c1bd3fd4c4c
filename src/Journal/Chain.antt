-- ===== src/Journal/Chain.antt =====
-- `_read_events` and `verify` of src/mss/analysis/shadow_trade_journal.py. A file is the list of its
-- lines, or `none` where the path does not exist.
pub mod Laws
pub mod Binding
use mss_package.Common.{
  ℕ, suc, ◌+◌, Bool, true, false, not, Option, none, some, List, [], ◌∷◌, Result, ok, err, ◌>>=◌,
  length, if◌then◌else◌,
}
use mss_package.Common.Text.{Text, codes, text_eq, is_empty}
use mss_package.Journal.Json.{
  Json, string, object, null, boolean, integer, floating, array, Fields, Library, as_object, get,
  without, is_text,
}

-- `"0" * 64`
abbrev pub genesis_sha256 : Text
genesis_sha256 = codes "0000000000000000000000000000000000000000000000000000000000000000"

-- The exceptions: two `RuntimeError`s with a line number, and the `AttributeError` of `event.get`
-- where a line holds a value that is no object.
pub data JournalError : Type 0 where
  empty_journal_line : ℕ → JournalError
  invalid_journal_json : ℕ → JournalError
  attribute_error : JournalError

pub data ChainReason : Type 0 where
  previous_hash_mismatch event_hash_mismatch shadow_journal_chain_valid : ChainReason

-- The dictionary that `verify` returns; the keys of the other branch are absent.
pub data Verification : Type 0 where
  broken : (reason : ChainReason) (event_index event_count : ℕ) → Verification
  chain_valid : (event_count : ℕ) (last_event_sha256 : Text) → Verification

abbrev pub File : Type 0
File = Option (List Text)

abbrev pub lines_of : File → List Text
lines_of none = []
lines_of (some lines) = lines

module _ {N : Type 0} where
  -- The first test of an event: it names the hash of the event before.
  unfoldable pub is_linked : Text → Fields N → Bool
  is_linked previous_sha event = is_text (get (codes "previous_event_sha256") event) previous_sha

module _ {N : Type 0} (L : Library N) where
  open L use {canonical_json, loads, sha256}

  abbrev parsed : ℕ → Option (Json N) → Result JournalError (Json N)
  parsed line_number none = err (invalid_journal_json line_number)
  parsed line_number (some v) = ok v

  unfoldable pub read_lines : ℕ → List Text → Result JournalError (List (Json N))
  read_lines line_number [] = ok []
  read_lines line_number (line ∷ lines) =
      let rest = read_lines (line_number + 1) lines in
      if is_empty line
      then err (empty_journal_line line_number)
      else parsed line_number (loads line) >>= λ event. rest >>= λ events. ok (event ∷ events)

  -- `ShadowTradeJournal._read_events`
  unfoldable pub read_events : File → Result JournalError (List (Json N))
  unfolding read_lines
  read_events none = ok []
  read_events (some lines) = read_lines 1 lines

  -- `_sha256_text(_canonical_json(body))` of an event without its own hash
  abbrev pub digest : Fields N → Text
  digest event = sha256 (canonical_json (object (without (codes "event_sha256") event)))

  -- The second test: it names its own hash.
  unfoldable pub is_hashed : Fields N → Bool
  is_hashed event = is_text (get (codes "event_sha256") event) (digest event)

  -- The loop of `verify`: the hash of the event before, its index, and the events that are left.
  -- Past both tests the hash that an event records is its digest.
  unfoldable pub check_chain : ℕ → Text → ℕ → List (Json N) → Result JournalError Verification
  check_chain count previous_sha index [] = ok (chain_valid count previous_sha)
  check_chain count previous_sha index (value ∷ events) = elim (as_object value) [
    | none ↦ err attribute_error
    | some event ↦
        if not (is_linked previous_sha event)
        then ok (broken previous_hash_mismatch index count)
        else if not (is_hashed event)
        then ok (broken event_hash_mismatch index count)
        else check_chain count (digest event) (index + 1) events
  ]

  -- `ShadowTradeJournal.verify`
  unfoldable pub verify : File → Result JournalError Verification
  unfolding read_events
  verify file = read_events file >>= λ events. check_chain (length events) genesis_sha256 1 events
