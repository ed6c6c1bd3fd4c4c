-- ===== src/Governor/Portfolio/Exposure.antt =====
-- The counts of exposure tags, against the tags themselves.
use mss_package.Common.{
  ℕ, ◌+◌, ◌≡◌, refl, Bool, true, false, ◌||◌, List, [], ◌∷◌, Result, ok, err, arith, All, any, inl,
  inr, ltb, if◌then◌else◌, Result-cases, ◌∙◌,
}
use mss_package.Common.Dict.{Dict, lookup, lookup-insert}
use mss_package.Common.Text.{Text, text_eq, text_eq_iff}
use mss_package.Governor.Tags.{TagError, normalize_exposure_tags}
use mss_package.Governor.Portfolio.{
  PortfolioPosition, get_count, count_tag, count_tags, count_positions, is_concentrated,
}

-- The text is in the list.
abbrev pub has_text : Text → List Text → Bool
has_text t = any (λ (s : Text). text_eq s t)

-- No text is in both lists.
abbrev pub Disjoint : List Text → List Text → Type 0
Disjoint xs ys = All (λ (x : Text). has_text x ys ≡ false) xs

abbrev pub ok_or_nil : Result TagError (List Text) → List Text
ok_or_nil (ok tags) = tags
ok_or_nil (err _) = []

abbrev pub is_ok : Result TagError (List Text) → Bool
is_ok (ok _) = true
is_ok (err _) = false

module _ {N : Type 0} where
  -- The normalised tags of a position.
  abbrev pub tags_of : PortfolioPosition N → List Text
  tags_of p = ok_or_nil (normalize_exposure_tags p.exposure_tags)

  -- The tags of a position can be normalised.
  abbrev pub has_valid_tags : PortfolioPosition N → Bool
  has_valid_tags p = is_ok (normalize_exposure_tags p.exposure_tags)

get_count-count_tag :
    (tag t : Text) (counts : Dict ℕ)
    → get_count t (count_tag counts tag)
      ≡ (if text_eq tag t then get_count tag counts + 1 else get_count t counts)
unfolding count_tag
get_count-count_tag tag t counts =
    ground (arith, lookup-insert tag t (get_count tag counts + 1) counts)

-- A tag has a count after the loop exactly if it had one before, or is in the list.
get_count-count_tags :
    (t : Text) (counts : Dict ℕ) (tags : List Text)
    → ltb 0 (get_count t (count_tags counts tags)) ≡ (ltb 0 (get_count t counts) || has_text t tags)
unfolding count_tags
get_count-count_tags t counts [] = ground arith
get_count-count_tags t counts (tag ∷ tags) =
    get_count-count_tags t (count_tag counts tag) tags
    ∙ ground (arith, get_count-count_tag tag t counts, text_eq_iff tag t)

module _ {N : Type 0} where
  -- A position with this tag is open.
  abbrev pub is_held : Text → List (PortfolioPosition N) → Bool
  is_held t = any (λ (p : PortfolioPosition N). has_text t (tags_of p))

  abbrev pub AllValid : List (PortfolioPosition N) → Type 0
  AllValid = All (λ p. has_valid_tags p ≡ true)

  -- The loop raises nothing exactly if all tags can be normalised; then it counts what is held.
  pub count_positions-AllValid :
      (counts : Dict ℕ) (positions : List (PortfolioPosition N)) {result : Dict ℕ}
      → count_positions counts positions ≡ ok result
      → AllValid positions
  unfolding count_positions
  count_positions-AllValid counts [] h = tt
  count_positions-AllValid counts (p ∷ positions) {result} h =
      elim (Result-cases (normalize_exposure_tags p.exposure_tags)) [
        | inr (e, q) ↦ ground (arith, q)
        | inl (tags, q) ↦ (
          rw q refl,
          count_positions-AllValid (count_tags counts tags) positions {result = result}
              (ground (arith, q)),
        )
      ]

  pub count_positions_total :
      (counts : Dict ℕ) (positions : List (PortfolioPosition N))
      → AllValid positions
      → (result : Dict ℕ) × (count_positions counts positions ≡ ok result)
  unfolding count_positions
  count_positions_total counts [] h = (counts, refl)
  count_positions_total counts (p ∷ positions) h =
      elim (Result-cases (normalize_exposure_tags p.exposure_tags)) [
        | inr (e, q) ↦ ground (arith, q, h.0)
        | inl (tags, q) ↦
            rw (q, count_positions) (count_positions_total (count_tags counts tags) positions h.1)
      ]

  pub get_count-count_positions :
      (t : Text) (counts : Dict ℕ) (positions : List (PortfolioPosition N)) {result : Dict ℕ}
      → count_positions counts positions ≡ ok result
      → ltb 0 (get_count t result) ≡ (ltb 0 (get_count t counts) || is_held t positions)
  unfolding count_positions
  get_count-count_positions t counts [] h = ground arith
  get_count-count_positions t counts (p ∷ positions) {result} h =
      elim (Result-cases (normalize_exposure_tags p.exposure_tags)) [
        | inr (e, q) ↦ ground (arith, q)
        | inl (tags, q) ↦ ground (
          arith,
          q,
          get_count-count_positions t (count_tags counts tags) positions {result = result},
          get_count-count_tags t counts tags,
        )
      ]

  -- The test of the candidate's tags, without the counts.
  pub is_concentrated-eq-is_held :
      (tags : List Text) (positions : List (PortfolioPosition N)) {counts : Dict ℕ}
      → count_positions [] positions ≡ ok counts
      → is_concentrated counts tags ≡ any (λ (t : Text). is_held t positions) tags
  unfolding lookup
  is_concentrated-eq-is_held [] positions h = refl
  is_concentrated-eq-is_held (t ∷ tags) positions {counts} h = ground (
    arith,
    get_count-count_positions t [] positions h,
    is_concentrated-eq-is_held tags positions h,
  )
