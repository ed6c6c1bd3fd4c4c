-- ===== src/RiskState/Snapshot/Sets.antt =====
-- Python's `set` of texts, and the test `len(xs) != len(set(xs))`.
use mss_package.Common.{
  ◌≤◌, ◌≡◌, refl, ◌↔◌, Bool, false, not, List, [], ◌∷◌, arith, ◌==◌, length, any, if◌then◌else◌,
}
use mss_package.Common.Text.{Text, text_eq, text_eq_iff}

-- `x in xs`
abbrev pub member : Text → List Text → Bool
member t = any (λ (s : Text). text_eq s t)

-- `set(xs)`, as a list without repetitions.
unfoldable pub set_of : List Text → List Text
set_of [] = []
set_of (x ∷ xs) = let rest = set_of xs in if member x rest then rest else x ∷ rest

-- `len(xs) != len(set(xs))`
unfoldable pub has_duplicates : List Text → Bool
unfolding set_of
has_duplicates xs = not (length xs == length (set_of xs))

-- No text occurs twice.
abbrev pub Distinct : List Text → Type 0
Distinct [] = Unit
Distinct (x ∷ xs) = (member x xs ≡ false) × Distinct xs

member-set_of : (t : Text) (xs : List Text) → member t (set_of xs) ≡ member t xs
unfolding set_of
member-set_of t [] = refl
member-set_of t (x ∷ xs) = ground (arith, member-set_of t xs, member-set_of x xs, text_eq_iff x t)

length-set_of : (xs : List Text) → length (set_of xs) ≤ length xs
unfolding set_of
length-set_of [] = omega arith
length-set_of (x ∷ xs) = ground (arith, length-set_of xs)

length-eq_iff : (xs : List Text) → (length xs ≡ length (set_of xs)) ↔ Distinct xs
unfolding set_of
length-eq_iff [] = ground arith
length-eq_iff (x ∷ xs) = ground (arith, member-set_of x xs, length-set_of xs, length-eq_iff xs)

-- Comparing the lengths tells whether a text occurs twice.
pub has_duplicates_iff : (xs : List Text) → (has_duplicates xs ≡ false) ↔ Distinct xs
unfolding has_duplicates
has_duplicates_iff xs = ground (arith, length-eq_iff xs)
