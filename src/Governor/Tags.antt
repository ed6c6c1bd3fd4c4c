-- ===== src/Governor/Tags.antt =====
-- `_normalize_exposure_tags` of src/mss/analysis/portfolio_risk_governor.py.
pub mod Laws
use mss_package.Common.{
  Bool, not, ◌||◌, Option, none, some, List, [], ◌∷◌, ◌++◌, Result, ok, err, ◌>>=◌, if◌then◌else◌,
}
use mss_package.Common.Text.{Text, codes, text_eq, is_empty, split_once, normalize}

-- The messages of the `ValueError`s.
pub data TagError : Type 0 where
  exposure_tag_must_be_directional invalid_exposure_direction invalid_exposure_asset : TagError

-- Whether a direction is one of `("LONG", "SHORT")`.
pub is_direction : Text → Bool
is_direction d = text_eq d (codes "LONG") || text_eq d (codes "SHORT")

-- The body of the loop after the split at the first colon.
pub check_parts : Text × Text → Result TagError (Option Text)
unfolding is_direction
check_parts (direction, asset) =
    if not (is_direction direction)
    then err invalid_exposure_direction
    else if is_empty asset
    then err invalid_exposure_asset
    else ok (some (direction ++ b':' ∷ asset))

-- One round of the loop: `none` is `continue`.
pub normalize_tag : Text → Result TagError (Option Text)
unfolding check_parts
normalize_tag raw =
    let tag = normalize raw in
    if is_empty tag then ok none else elim (split_once b':' tag) [
      | none ↦ err exposure_tag_must_be_directional
      | some parts ↦ check_parts parts
    ]

abbrev pub keep {ℓ} : {A : Type ℓ} → Option A → List A → List A
keep none xs = xs
keep (some x) xs = x ∷ xs

-- `PortfolioRiskGovernor._normalize_exposure_tags`
unfoldable pub normalize_exposure_tags : List Text → Result TagError (List Text)
unfolding normalize_tag
normalize_exposure_tags [] = ok []
normalize_exposure_tags (raw ∷ tags) =
    let rest = normalize_exposure_tags tags in
    normalize_tag raw >>= λ tag. rest >>= λ normalized. ok (keep tag normalized)
