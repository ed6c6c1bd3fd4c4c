-- ===== src/Aggregator/Sources.antt =====
-- The first loop of `recover` of src/mss/analysis/shadow_portfolio_risk_aggregator.py: the sources are
-- checked one by one, before any journal is read.
pub mod Laws
use mss_package.Common.{
  ℕ, Bool, true, false, ◌||◌, Option, none, some, List, [], ◌∷◌, Result, ok, err, ◌>>=◌, is_some,
  not, if◌then◌else◌,
}
use mss_package.Common.Text.{Text, text_eq, is_empty, strip, normalize}
use mss_package.Profiles.{get}
use mss_package.Recovery.Replay.{RecoveryReason}
use mss_package.RiskState.Position.{normalize_path, is_prohibited}
use mss_package.RiskState.Snapshot.{SnapshotReason, ShadowPortfolioSnapshot}

pub record ShadowPortfolioJournalSource : Type 0 where
  pub symbol : Text
  pub journal_path : Text

pub data AggregateReason : Type 0 where
  no_journal_sources invalid_source_symbol unsupported_source_symbol : AggregateReason
  duplicate_source_symbol invalid_or_prohibited_journal_path : AggregateReason
  duplicate_journal_path journal_recovery_failed recovery_snapshot_missing : AggregateReason
  journal_symbol_mismatch : AggregateReason
  -- The reason of a snapshot that is not valid.
  snapshot_invalid : SnapshotReason → AggregateReason
  portfolio_risk_state_aggregated : AggregateReason

-- The text in `failed_reason`.
pub data FailedReason : Type 0 where
  no_reason : FailedReason
  recovery_reason : RecoveryReason → FailedReason
  other_symbol : Text → FailedReason

pub record ShadowPortfolioAggregateResult (N : Type 0) : Type 0 where
  pub valid : Bool
  pub reason : AggregateReason
  pub source_count : ℕ
  pub recovered_source_count : ℕ
  pub open_position_count : ℕ
  pub failed_symbol : Text
  pub failed_reason : FailedReason
  pub snapshot : Option (ShadowPortfolioSnapshot N)

-- A source that has passed: its symbol and its resolved path.
abbrev pub Prepared : Type 0
Prepared = Text × Text

-- A set of texts, by its membership test, and `seen.add(t)`.
abbrev pub Seen : Type 0
Seen = Text → Bool

abbrev pub add : Text → Seen → Seen
add t seen x = text_eq t x || seen x

-- What the checks of a source that need no other source find.
pub data Finding : Type 0 where
  bad : AggregateReason → Text → Finding
  -- No valid path: found after the test for a symbol that was seen.
  bad_path : Text → Finding
  good : (symbol resolved key : Text) → Finding

-- `_normalize_path`: the resolved path, whose comparison key is `normalize_path` of it.
unfoldable pub resolve_path : (Text → Option Text) → Text → Option Text
resolve_path resolve journal_path =
    if is_empty (strip journal_path) then none else elim (resolve (strip journal_path)) [
      | none ↦ none
      | some resolved ↦ if is_prohibited resolved then none else some resolved
    ]

abbrev pub find_path : Text → Option Text → Finding
find_path symbol none = bad_path symbol
find_path symbol (some resolved) = good symbol resolved (normalize_path resolved)

-- The checks of one source by itself.
unfoldable pub inspect : (Text → Option Text) → ShadowPortfolioJournalSource → Finding
inspect resolve source =
    let symbol = normalize source.symbol in
    if is_empty symbol
    then bad invalid_source_symbol []
    else if not (is_some (get symbol))
    then bad unsupported_source_symbol symbol
    else find_path symbol (resolve_path resolve source.journal_path)

module _ {N : Type 0} where
  -- A refusal before any journal is read.
  abbrev pub refuse : AggregateReason → ℕ → Text → ShadowPortfolioAggregateResult N
  refuse why count symbol = record {
    valid = false;
    reason = why;
    source_count = count;
    recovered_source_count = 0;
    open_position_count = 0;
    failed_symbol = symbol;
    failed_reason = no_reason;
    snapshot = none;
  }

  -- The checks of one source, those against the sources before it in their place.
  unfoldable pub admit :
      ℕ → Seen → Seen → Finding → Result (ShadowPortfolioAggregateResult N) (Prepared × Text)
  admit count seen_symbols seen_paths (bad why symbol) = err (refuse why count symbol)
  admit count seen_symbols seen_paths (bad_path symbol) =
      if seen_symbols symbol
      then err (refuse duplicate_source_symbol count symbol)
      else err (refuse invalid_or_prohibited_journal_path count symbol)
  admit count seen_symbols seen_paths (good symbol resolved key) =
      if seen_symbols symbol
      then err (refuse duplicate_source_symbol count symbol)
      else if seen_paths key
      then err (refuse duplicate_journal_path count symbol)
      else ok ((symbol, resolved), key)

  -- The loop over the sources.
  unfoldable pub prepare :
      (Text → Option Text)
      → ℕ
      → Seen
      → Seen
      → List ShadowPortfolioJournalSource
      → Result (ShadowPortfolioAggregateResult N) (List Prepared)
  unfolding admit
  prepare resolve count seen_symbols seen_paths [] = ok []
  prepare resolve count seen_symbols seen_paths (source ∷ sources) =
      elim (admit count seen_symbols seen_paths (inspect resolve source)) [
        | err r ↦ err r
        | ok (p, key) ↦
            prepare resolve count (add p.0 seen_symbols) (add key seen_paths) sources >>= λ rest.
            ok (p ∷ rest)
      ]
