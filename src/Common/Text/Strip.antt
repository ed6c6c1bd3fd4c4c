-- ===== src/Common/Text/Strip.antt =====
-- `strip`, `upper` and `lower`, and that normalising a text twice changes nothing more.
use Prim.Native.Nat.{ℕ, ◌-◌, ◌+◌}
use mathlib.Core.Path.{◌≡◌, refl, ap, ◌∙◌, sym}
use mathlib.Core.Logic.{inl, inr}
use mathlib.Core.Bool.{Bool, true, not, ◌&&◌, ◌||◌}
use mathlib.Core.List.{[], ◌∷◌, ◌++◌, map, reverse, reverse-reverse, reverse-append, map-append}
use native.Mathlib.Omega.{arith}
use mss_package.Common.Tests.{leb, Bool-cases, if◌then◌else◌}
use mss_package.Common.Text.Equality.{Text}

-- What `str.strip` removes: tab to carriage return, the separators 28 to 31, and the blank.
unfoldable pub is_space : ℕ → Bool
is_space c = leb 9 c && leb c 13 || leb 28 c && leb c 32

unfoldable pub lstrip : Text → Text
unfolding is_space
lstrip [] = []
lstrip (c ∷ t) = if is_space c then lstrip t else c ∷ t

unfoldable pub strip : Text → Text
unfolding lstrip
strip t = reverse (lstrip (reverse (lstrip t)))

unfoldable pub upper_code : ℕ → ℕ
upper_code c = if leb b'a' c && leb c b'z' then c - 32 else c

unfoldable pub lower_code : ℕ → ℕ
lower_code c = if leb b'A' c && leb c b'Z' then c + 32 else c

unfoldable pub upper : Text → Text
unfolding upper_code
upper t = map upper_code t

unfoldable pub lower : Text → Text
unfolding lower_code
lower t = map lower_code t

-- `str(x).strip().upper()`
unfoldable pub normalize : Text → Text
unfolding strip upper
normalize t = upper (strip t)

-- The text does not begin with a blank.
abbrev is_flush : Text → Bool
is_flush [] = true
is_flush (c ∷ t) = not (is_space c)

lstrip-is_flush : (t : Text) → is_flush (lstrip t) ≡ true
unfolding lstrip
lstrip-is_flush [] = refl
lstrip-is_flush (c ∷ t) = ground (arith, lstrip-is_flush t)

lstrip_flush : (t : Text) → is_flush t ≡ true → lstrip t ≡ t
unfolding lstrip
lstrip_flush [] h = refl
lstrip_flush (c ∷ t) h = ground arith

-- `lstrip` removes a prefix.
removed : Text → Text
unfolding is_space
removed [] = []
removed (c ∷ t) = if is_space c then c ∷ removed t else []

removed-append-lstrip : (t : Text) → removed t ++ lstrip t ≡ t
unfolding removed lstrip
removed-append-lstrip [] = refl
removed-append-lstrip (c ∷ t) = elim (Bool-cases (is_space c)) [
  | inl e ↦ rw e (ap (λ (u : Text). c ∷ u) (removed-append-lstrip t))
  | inr e ↦ rw e refl
]

is_flush-prefix : (s t : Text) → is_flush (s ++ t) ≡ true → is_flush s ≡ true
is_flush-prefix [] t h = refl
is_flush-prefix (c ∷ s) t h = h

abbrev rstrip : Text → Text
rstrip t = reverse (lstrip (reverse t))

rstrip-append-removed : (t : Text) → rstrip t ++ reverse (removed (reverse t)) ≡ t
rstrip-append-removed t =
    sym (reverse-append (removed (reverse t)) (lstrip (reverse t)))
    ∙ ap reverse (removed-append-lstrip (reverse t))
    ∙ reverse-reverse t

rstrip-is_flush : (t : Text) → is_flush t ≡ true → is_flush (rstrip t) ≡ true
rstrip-is_flush t h =
    is_flush-prefix (rstrip t) (reverse (removed (reverse t))) (rw rstrip-append-removed h)

rstrip_idem : (t : Text) → rstrip (rstrip t) ≡ rstrip t
rstrip_idem t =
    rw reverse-reverse
      (ap reverse (lstrip_flush (lstrip (reverse t)) (lstrip-is_flush (reverse t))))

-- Stripping twice is stripping once.
pub strip_idem : (t : Text) → strip (strip t) ≡ strip t
unfolding strip
strip_idem t =
    ap rstrip (lstrip_flush (rstrip (lstrip t)) (rstrip-is_flush (lstrip t) (lstrip-is_flush t)))
    ∙ rstrip_idem (lstrip t)

is_space-upper_code : (c : ℕ) → is_space (upper_code c) ≡ is_space c
unfolding is_space upper_code
is_space-upper_code c = ground arith

upper_code_idem : (c : ℕ) → upper_code (upper_code c) ≡ upper_code c
unfolding upper_code
upper_code_idem c = ground arith

lstrip-upper : (t : Text) → lstrip (map upper_code t) ≡ map upper_code (lstrip t)
unfolding lstrip
lstrip-upper [] = refl
lstrip-upper (c ∷ t) = elim (Bool-cases (is_space c)) [
  | inl e ↦ rw (is_space-upper_code, e) (lstrip-upper t)
  | inr e ↦ rw (is_space-upper_code, e) refl
]

map-reverse : (t : Text) → map upper_code (reverse t) ≡ reverse (map upper_code t)
map-reverse [] = refl
map-reverse (c ∷ t) =
    rw (reverse-append (c ∷ []) t, reverse-append (upper_code c ∷ []) (map upper_code t))
      (map-append upper_code (reverse t) (reverse (c ∷ []))
        ∙ ap (λ (u : Text). u ++ reverse (upper_code c ∷ [])) (map-reverse t))

pub strip-upper : (t : Text) → strip (upper t) ≡ upper (strip t)
unfolding strip upper
strip-upper t = simp (lstrip-upper, ← map-reverse)

pub upper_idem : (t : Text) → upper (upper t) ≡ upper t
unfolding upper
upper_idem [] = refl
upper_idem (c ∷ t) = cc (upper_code_idem c, upper_idem t)

-- A normalised text is its own normal form.
pub normalize_idem : (t : Text) → normalize (normalize t) ≡ normalize t
normalize_idem t =
    unfold normalize in
    ap upper (strip-upper (strip t)) ∙ upper_idem (strip (strip t)) ∙ ap upper (strip_idem t)
