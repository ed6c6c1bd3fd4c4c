-- ===== src/Aggregator/Sort/Laws.antt =====
-- The order of the sources is strict, and sorting forgets the order in which they came.
use mss_package.Common.{◌≡◌, ◌≢◌, refl, true, false, not, ◌||◌, List, [], ◌∷◌, arith}
use mss_package.Common.Text.{Text, text_eq_iff, lower}
use mss_package.Aggregator.Sort.{text_lt, comes_before, insert_source}
use mss_package.Aggregator.Sources.{Prepared}

-- One of two different texts comes first.
text_lt_total : (s t : Text) → s ≢ t → text_lt s t ≡ not (text_lt t s)
unfolding text_lt
text_lt_total [] [] h = absurd (h refl)
text_lt_total [] (d ∷ t) h = refl
text_lt_total (c ∷ s) [] h = refl
text_lt_total (c ∷ s) (d ∷ t) h = ground (arith, text_lt_total s t)

text_lt_irrefl : (s : Text) → text_lt s s ≡ false
unfolding text_lt
text_lt_irrefl [] = refl
text_lt_irrefl (c ∷ s) = ground (arith, text_lt_irrefl s)

-- A text between the two is past the first or before the second.
text_lt_cotrans : (s t u : Text) → text_lt s u ≡ true → (text_lt s t || text_lt t u) ≡ true
unfolding text_lt
text_lt_cotrans [] [] (e ∷ u) h = refl
text_lt_cotrans [] (d ∷ t) (e ∷ u) h = refl
text_lt_cotrans (c ∷ s) [] (e ∷ u) h = ground arith
text_lt_cotrans (c ∷ s) (d ∷ t) (e ∷ u) h = ground (arith, text_lt_cotrans s t u)
text_lt_cotrans [] t [] h = cc
text_lt_cotrans (c ∷ s) t [] h = cc

comes_before_total : (a b : Prepared) → a.0 ≢ b.0 → comes_before a b ≡ not (comes_before b a)
unfolding comes_before
comes_before_total a b h =
    ground (arith, text_lt_total a.0 b.0, text_eq_iff a.0 b.0, text_eq_iff b.0 a.0)

comes_before_cotrans :
    (a b c : Prepared) → comes_before a c ≡ true → (comes_before a b || comes_before b c) ≡ true
unfolding comes_before
comes_before_cotrans a b c h = ground (
  arith,
  text_lt_cotrans a.0 b.0 c.0,
  text_lt_cotrans (lower a.1) (lower b.1) (lower c.1),
  text_eq_iff a.0 b.0,
  text_eq_iff b.0 c.0,
  text_eq_iff a.0 c.0,
  text_lt_total a.0 b.0,
  text_lt_total b.0 c.0,
)

-- Two insertions of different symbols may change places.
pub insert_source_comm :
    (x y : Prepared) (l : List Prepared)
    → x.0 ≢ y.0
    → insert_source x (insert_source y l) ≡ insert_source y (insert_source x l)
unfolding insert_source
insert_source_comm x y [] h = ground (arith, comes_before_total x y h)
insert_source_comm x y (z ∷ l) h = ground (
  arith,
  comes_before_total x y h,
  comes_before_cotrans z x y,
  comes_before_cotrans z y x,
  insert_source_comm x y l h,
)
