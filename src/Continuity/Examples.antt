-- ===== src/Continuity/Examples.antt =====
-- A session without positions after one with a position in EURUSD.
use mss_package.Common.{◌≡◌, ◌↔◌, refl, false, Option, some, [], ◌∷◌}
use mss_package.Common.Fixed.{Fixed, fixed}
use mss_package.Common.Text.{text_eq}
use mss_package.RiskState.Examples.{euro_state}
use mss_package.RiskState.Snapshot.{ShadowPortfolioSnapshot, snapshot}
use mss_package.RiskState.Snapshot.Sets.{has_duplicates}
use mss_package.Continuity.{import_required, compare_positions, judge_counts, evaluate}
use mss_package.Continuity.Laws.{IsImport, import_required_iff}

abbrev empty_now : Option (ShadowPortfolioSnapshot Fixed)
empty_now = some (snapshot fixed [])

abbrev euro_before : Option (ShadowPortfolioSnapshot Fixed)
euro_before = some (snapshot fixed (euro_state ∷ []))

euro_imported : (evaluate fixed empty_now euro_before false).action ≡ import_required
unfolding evaluate judge_counts compare_positions snapshot has_duplicates text_eq
euro_imported = refl

import_required_iff_example :
    ((evaluate fixed empty_now euro_before false).action ≡ import_required)
    ↔ IsImport fixed empty_now euro_before false
import_required_iff_example = import_required_iff fixed empty_now euro_before false
