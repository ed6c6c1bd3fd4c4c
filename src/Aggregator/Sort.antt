-- ===== src/Aggregator/Sort.antt =====
-- `prepared_sources.sort(key=lambda item: (item[0], item[1].lower()))`, a stable sort.
pub mod Laws
use Prim.Native.Nat.{compare, Ordering}
use mss_package.Common.{ℕ, Bool, true, false, ◌||◌, ◌&&◌, List, [], ◌∷◌, if◌then◌else◌}
use mss_package.Common.Text.{Text, text_eq, lower}
use mss_package.Aggregator.Sources.{Prepared}

-- `s < t`: by code points, from the left.
unfoldable pub text_lt : Text → Text → Bool
text_lt s [] = false
text_lt [] (d ∷ t) = true
text_lt (c ∷ s) (d ∷ t) = elim (compare c d) [
  | Ordering.lt ↦ true
  | Ordering.gt ↦ false
  | Ordering.eq ↦ text_lt s t
]

-- The order of the keys, strictly.
unfoldable pub comes_before : Prepared → Prepared → Bool
comes_before a b = text_lt a.0 b.0 || (text_eq a.0 b.0 && text_lt (lower a.1) (lower b.1))

-- One item before the first item that does not come before it.
unfoldable pub insert_source : Prepared → List Prepared → List Prepared
insert_source x [] = x ∷ []
insert_source x (y ∷ ys) = if comes_before y x then y ∷ insert_source x ys else x ∷ y ∷ ys

unfoldable pub sort_sources : List Prepared → List Prepared
sort_sources [] = []
sort_sources (x ∷ xs) = insert_source x (sort_sources xs)
