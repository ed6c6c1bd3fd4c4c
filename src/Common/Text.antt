-- ===== src/Common/Text.antt =====
-- Texts as lists of code points, with the `str` methods that the program calls. They are those of
-- Python on ASCII text, in which all symbols, tags, paths and identifiers of the program are written.
mod Equality
mod Strip
unfoldable pub use Equality.*
unfoldable pub use Strip.*
use Prim.Native.Char.{code}
use Prim.Native.Nat.{ℕ, ◌-◌, ◌+◌}
use Prim.Native.String.{String}
use mathlib.Core.Bool.{Bool, true, false, ◌&&◌, ◌||◌}
use mathlib.Core.List.{List, [], ◌∷◌, map}
use mathlib.Core.Option.{Option, none, some}
use mss_package.Common.Tests.{leb, ◌==◌, if◌then◌else◌}

-- A literal.
abbrev pub codes : String → Text
codes String.[] = []
codes (String.◌∷◌ c s) = code c ∷ codes s

-- `c in t` for one character.
abbrev pub has_code : ℕ → Text → Bool
has_code c [] = false
has_code c (d ∷ t) = c == d || has_code c t

-- `t.startswith(s)`
unfoldable pub starts_with : Text → Text → Bool
starts_with t [] = true
starts_with [] (c ∷ s) = false
starts_with (d ∷ t) (c ∷ s) = c == d && starts_with t s

-- `s in t`
unfoldable pub contains : Text → Text → Bool
unfolding starts_with
contains s [] = starts_with [] s
contains s (d ∷ t) = starts_with (d ∷ t) s || contains s t

-- `t.split(c, 1)` where `c in t`, and `none` where it is not.
unfoldable pub split_once : ℕ → Text → Option (Text × Text)
split_once c [] = none
split_once c (d ∷ t) =
    let rest = split_once c t in
    if c == d then some ([], t) else elim rest [ none ↦ none | some (a, b) ↦ some (d ∷ a, b) ]
