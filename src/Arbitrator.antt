-- ===== src/Arbitrator.antt =====
-- src/mss/analysis/multi_symbol_candidate_arbitrator.py: which of the symbols with an entry is taken.
pub mod Index
pub mod Order
pub mod Choice
mod Examples
use mss_package.Common.{
  Bool, true, false, not, ◌&&◌, Option, none, some, List, [], ◌∷◌, map, any, if◌then◌else◌,
}
use mss_package.Common.Dict.{Dict, lookup, has_key, insert}
use mss_package.Common.Text.{Text, text_eq, upper}
use mss_package.RiskState.Snapshot.Sets.{member, has_duplicates}

pub record ShadowEntryCandidate : Type 0 where
  pub symbol : Text
  pub eligible : Bool
  pub reason : Text

pub data ArbitrationReason : Type 0 where
  empty_symbol_priority duplicate_symbol_priority duplicate_candidate_symbol : ArbitrationReason
  eligible_symbol_not_in_priority no_eligible_candidate : ArbitrationReason
  deterministic_candidate_selected : ArbitrationReason

pub record CandidateArbitrationResult : Type 0 where
  pub selected_symbol : Option Text
  pub allowed : Bool
  pub reason : ArbitrationReason
  pub eligible_symbols : List Text

abbrev pub refuse : ArbitrationReason → List Text → CandidateArbitrationResult
refuse why symbols = record {
  selected_symbol = none;
  allowed = false;
  reason = why;
  eligible_symbols = symbols;
}

-- The loop that fills `by_symbol`, with `none` for a symbol that is there already.
unfoldable pub index_candidates :
    Dict ShadowEntryCandidate → List ShadowEntryCandidate → Option (Dict ShadowEntryCandidate)
index_candidates by_symbol [] = some by_symbol
index_candidates by_symbol (c ∷ cs) =
    let rest = index_candidates (insert (upper c.symbol) c by_symbol) cs in
    if has_key (upper c.symbol) by_symbol then none else rest

abbrev pub is_eligible : Option ShadowEntryCandidate → Bool
is_eligible none = false
is_eligible (some c) = c.eligible

-- `eligible_symbols`
unfoldable pub eligible_of : Dict ShadowEntryCandidate → List Text → List Text
eligible_of by_symbol [] = []
eligible_of by_symbol (symbol ∷ priority) =
    let rest = eligible_of by_symbol priority in
    if is_eligible (lookup symbol by_symbol) then symbol ∷ rest else rest

-- Whether `unknown_eligible` has an item.
unfoldable pub has_unknown_eligible : List Text → Dict ShadowEntryCandidate → Bool
has_unknown_eligible priority =
    any (λ (e : Text × ShadowEntryCandidate). e.1.eligible && not (member e.0 priority))

unfoldable pub choose : List Text → CandidateArbitrationResult
choose [] = refuse no_eligible_candidate []
choose (symbol ∷ symbols) = record {
  selected_symbol = some symbol;
  allowed = true;
  reason = deterministic_candidate_selected;
  eligible_symbols = symbol ∷ symbols;
}

-- From the filled `by_symbol` on.
unfoldable pub select_indexed :
    List Text → Option (Dict ShadowEntryCandidate) → CandidateArbitrationResult
select_indexed priority none = refuse duplicate_candidate_symbol []
select_indexed priority (some by_symbol) =
    if has_unknown_eligible priority by_symbol
    then refuse eligible_symbol_not_in_priority (eligible_of by_symbol priority)
    else choose (eligible_of by_symbol priority)

abbrev pub is_nil : List Text → Bool
is_nil [] = true
is_nil (x ∷ xs) = false

-- `DeterministicCandidateArbitrator.select`
unfoldable pub select : List ShadowEntryCandidate → List Text → CandidateArbitrationResult
select candidates symbol_priority =
    let priority = map upper symbol_priority in
    if is_nil priority
    then refuse empty_symbol_priority []
    else if has_duplicates priority
    then refuse duplicate_symbol_priority []
    else select_indexed priority (index_candidates [] candidates)
