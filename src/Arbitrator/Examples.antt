-- ===== src/Arbitrator/Examples.antt =====
-- Three candidates, of which two may be taken.
use mathlib.Core.List.{Permᴰ}
use mss_package.Common.{◌≡◌, refl, true, some, List, [], ◌∷◌, map}
use mss_package.Common.Dict.{lookup, insert}
use mss_package.Common.Text.{Text, codes, text_eq, upper}
use mss_package.RiskState.Snapshot.Sets.{has_duplicates, set_of}
use mss_package.Arbitrator.{
  ShadowEntryCandidate, index_candidates, eligible_of, has_unknown_eligible, choose, select_indexed,
  select,
}
use mss_package.Arbitrator.Choice.{Decides, select-Decides}
use mss_package.Arbitrator.Order.{select-perm}

abbrev candidate : Text → ShadowEntryCandidate
candidate symbol = record { symbol = symbol; eligible = true; reason = [] }

abbrev euro : ShadowEntryCandidate
euro = candidate (codes "eurusd")

abbrev gold : ShadowEntryCandidate
gold = candidate (codes "XAUUSD")

abbrev priority : List Text
priority = codes "GBPUSD" ∷ codes "XAUUSD" ∷ codes "EURUSD" ∷ []

gold_selected : (select (euro ∷ gold ∷ []) priority).selected_symbol ≡ some (codes "XAUUSD")
unfolding select select_indexed index_candidates eligible_of has_unknown_eligible choose lookup
    insert text_eq upper has_duplicates set_of
gold_selected = refl

select-perm_example : select (euro ∷ gold ∷ []) priority ≡ select (gold ∷ euro ∷ []) priority
select-perm_example =
    select-perm (euro ∷ gold ∷ []) (gold ∷ euro ∷ []) priority (Permᴰ.swap refl refl)

select-Decides_example :
    Decides (euro ∷ gold ∷ []) (map upper priority) (select (euro ∷ gold ∷ []) priority)
select-Decides_example = select-Decides (euro ∷ gold ∷ []) priority
