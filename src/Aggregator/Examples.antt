-- ===== src/Aggregator/Examples.antt =====
-- Two journals of which one does not exist yet, aggregated in both orders.
use mathlib.Core.List.{Permᴰ}
use mss_package.Common.{◌≡◌, refl, true, Option, none, some, List, [], ◌∷◌, if◌then◌else◌}
use mss_package.Common.Dict.{lookup}
use mss_package.Common.Fixed.{Fixed, fixed}
use mss_package.Common.Text.{Text, codes, text_eq, strip, normalize, lower}
use mss_package.Journal.Chain.{File}
use mss_package.Journal.Json.{get}
use mss_package.Profiles.{profiles}
use mss_package.Profiles.{get as profile_of}
use mss_package.Recovery
use mss_package.Recovery.Examples.{stand_in, journal}
use mss_package.RiskState.Examples.{euro_state}
use mss_package.RiskState.Position.{is_prohibited}
use mss_package.RiskState.Snapshot.{snapshot}
use mss_package.Aggregator.{recover}
use mss_package.Aggregator.Laws.{Prepares, recover-perm}
use mss_package.Aggregator.Sources.{
  ShadowPortfolioJournalSource, ShadowPortfolioAggregateResult, portfolio_risk_state_aggregated,
  no_reason, Prepared, resolve_path, inspect, admit, prepare,
}

abbrev euro_path : Text
euro_path = codes "shadow_data\\live.jsonl"

abbrev gold_path : Text
gold_path = codes "shadow_data\\gold.jsonl"

abbrev files : Text → File
files path = if text_eq path euro_path then journal else none

abbrev resolve : Text → Option Text
resolve path = some path

abbrev euro_source : ShadowPortfolioJournalSource
euro_source = record { symbol = codes " eurusd"; journal_path = euro_path }

abbrev gold_source : ShadowPortfolioJournalSource
gold_source = record { symbol = codes "XAUUSD"; journal_path = gold_path }

abbrev prepared : List Prepared
prepared = (codes "XAUUSD", gold_path) ∷ (codes "EURUSD", euro_path) ∷ []

both_prepared : Prepares stand_in fixed files resolve (gold_source ∷ euro_source ∷ []) prepared
unfolding prepare admit inspect resolve_path is_prohibited text_eq strip normalize lower profile_of
    profiles lookup
both_prepared = refl

recover-perm_example :
    recover stand_in fixed files resolve (euro_source ∷ gold_source ∷ [])
    ≡ recover stand_in fixed files resolve (gold_source ∷ euro_source ∷ [])
recover-perm_example =
    recover-perm stand_in fixed files resolve (gold_source ∷ euro_source ∷ [])
      (euro_source ∷ gold_source ∷ []) prepared (Permᴰ.swap refl refl) both_prepared

abbrev both_aggregated : ShadowPortfolioAggregateResult Fixed
both_aggregated = record {
  valid = true;
  reason = portfolio_risk_state_aggregated;
  source_count = 2;
  recovered_source_count = 2;
  open_position_count = 1;
  failed_symbol = [];
  failed_reason = no_reason;
  snapshot = some (snapshot fixed (euro_state ∷ []));
}
