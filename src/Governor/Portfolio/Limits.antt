-- ===== src/Governor/Portfolio/Limits.antt =====
-- The limits that an admitted candidate meets, stated without the code's loops.
use mss_package.Common.{◌+◌, ◌≡◌, refl, ◌≢◌, ◌↔◌, false, List, [], ◌∷◌, arith, All, any, ltb}
use mss_package.Common.Text.{Text, text_eq_iff}
use mss_package.Governor.Portfolio.{
  PortfolioPosition, same_class_count, has_symbol, max_per_asset_class,
}
use mss_package.Governor.Portfolio.Exposure.{Disjoint, tags_of, is_held}

module _ {N : Type 0} where
  -- Two positions that may be open together.
  abbrev pub IsSeparate : PortfolioPosition N → PortfolioPosition N → Type 0
  IsSeparate p c =
      (p.symbol ≢ c.symbol) × (p.asset_class ≢ c.asset_class) × Disjoint (tags_of c) (tags_of p)

  -- No tag of the list is held, position by position.
  not_held_cons :
      (tags : List Text) (p : PortfolioPosition N) (positions : List (PortfolioPosition N))
      → (any (λ (t : Text). is_held t (p ∷ positions)) tags ≡ false)
        ↔ (Disjoint tags (tags_of p) × (any (λ (t : Text). is_held t positions) tags ≡ false))
  not_held_cons [] p positions = ground arith
  not_held_cons (t ∷ tags) p positions = ground (arith, not_held_cons tags p positions)

  not_held_nil :
      (tags : List Text) (positions : List (PortfolioPosition N))
      → positions ≡ []
      → any (λ (t : Text). is_held t positions) tags ≡ false
  not_held_nil [] positions h = refl
  not_held_nil (t ∷ tags) positions h = ground (arith, h, not_held_nil tags positions h)

  -- The three tests against the open positions pass exactly if each of them is separate.
  pub IsSeparate-iff :
      (c : PortfolioPosition N) (positions : List (PortfolioPosition N))
      → ((has_symbol c.symbol positions ≡ false)
          × (ltb max_per_asset_class (same_class_count c.asset_class positions + 1) ≡ false)
          × (any (λ (t : Text). is_held t positions) (tags_of c) ≡ false))
        ↔ All (λ p. IsSeparate p c) positions
  unfolding same_class_count
  IsSeparate-iff c [] = ground (arith, not_held_nil (tags_of c) [] refl)
  IsSeparate-iff c (p ∷ positions) = ground (
    arith,
    text_eq_iff p.symbol c.symbol,
    text_eq_iff p.asset_class c.asset_class,
    not_held_cons (tags_of c) p positions,
    IsSeparate-iff c positions,
  )
