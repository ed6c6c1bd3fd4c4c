-- ===== src/Profiles/Laws.antt =====
-- What holds of every instrument of the registry, and so of every exposure that it returns.
use mss_package.Common.{
  ◌≡◌, refl, ap, Bool, true, false, ◌&&◌, none, some, List, [], ◌∷◌, ok, err, Result, arith, inl,
  inr, Option-cases, ◌⊎◌,
}
use mss_package.Common.Dict.{Dict, lookup}
use mss_package.Common.Text.{
  Text, codes, text_eq, text_eq_iff, normalize, normalize_idem, split_once,
}
use mss_package.Governor.Tags.{TagError, normalize_exposure_tags}
use mss_package.Profiles.{
  InstrumentProfile, DirectionalExposureProfile, profiles, get, buy_tags, sell_tags, expose,
  directional_exposure,
}

-- The governor's reading of the tags is the tags.
abbrev same_tags : List Text → List Text → Bool
same_tags [] [] = true
same_tags [] (t ∷ ts) = false
same_tags (s ∷ ss) [] = false
same_tags (s ∷ ss) (t ∷ ts) = text_eq s t && same_tags ss ts

same_tags-eq : (ss ts : List Text) → same_tags ss ts ≡ true → ss ≡ ts
same_tags-eq [] [] h = refl
same_tags-eq [] (t ∷ ts) h = cc
same_tags-eq (s ∷ ss) [] h = cc
same_tags-eq (s ∷ ss) (t ∷ ts) h = ground (arith, text_eq_iff s t, same_tags-eq ss ts)

abbrev reads_as : Result TagError (List Text) → List Text → Bool
reads_as (ok ss) ts = same_tags ss ts
reads_as (err _) ts = false

reads_as-eq : (r : Result TagError (List Text)) (ts : List Text) → reads_as r ts ≡ true → r ≡ ok ts
reads_as-eq (ok ss) ts h = ap ok (same_tags-eq ss ts h)
reads_as-eq (err e) ts h = cc

-- The tests that every entry passes.
passes : Text → InstrumentProfile → Bool
passes key p =
    text_eq key p.symbol
    && reads_as (normalize_exposure_tags (buy_tags p)) (buy_tags p)
    && reads_as (normalize_exposure_tags (sell_tags p)) (sell_tags p)

all_pass : Dict InstrumentProfile → Bool
all_pass [] = true
all_pass ((key, p) ∷ d) = passes key p && all_pass d

profiles_pass : all_pass profiles ≡ true
unfolding all_pass passes profiles normalize_exposure_tags normalize split_once text_eq
profiles_pass = refl

lookup-passes :
    (k : Text) (d : Dict InstrumentProfile) {p : InstrumentProfile}
    → all_pass d ≡ true
    → lookup k d ≡ some p
    → passes k p ≡ true
unfolding all_pass lookup
lookup-passes k [] h e = cc
lookup-passes k ((key, q) ∷ d) {p} h e =
    ground (arith, text_eq_iff key k, lookup-passes k d {p = p})

-- The symbol that is found is the normalised one, and the governor accepts both lists of tags.
passes-tags :
    (k : Text) (p : InstrumentProfile)
    → passes k p ≡ true
    → (k ≡ p.symbol)
      × (normalize_exposure_tags (buy_tags p) ≡ ok (buy_tags p))
      × (normalize_exposure_tags (sell_tags p) ≡ ok (sell_tags p))
unfolding passes
passes-tags k p h = ground (
  arith,
  text_eq_iff k p.symbol,
  reads_as-eq (normalize_exposure_tags (buy_tags p)) (buy_tags p),
  reads_as-eq (normalize_exposure_tags (sell_tags p)) (sell_tags p),
)

pub get_sound :
    (symbol : Text) {p : InstrumentProfile}
    → get symbol ≡ some p
    → (normalize symbol ≡ p.symbol)
      × (normalize_exposure_tags (buy_tags p) ≡ ok (buy_tags p))
      × (normalize_exposure_tags (sell_tags p) ≡ ok (sell_tags p))
unfolding get
get_sound symbol {p} h =
    passes-tags (normalize symbol) p (lookup-passes (normalize symbol) profiles profiles_pass h)

-- An exposure names the normalised symbol and direction, its direction is BUY or SELL, and its tags
-- are directional and in the form that the portfolio governor normalises to.
pub directional_exposure_sound :
    (symbol direction : Text) (e : DirectionalExposureProfile)
    → directional_exposure symbol direction ≡ some e
    → (e.symbol ≡ normalize symbol)
      × (e.direction ≡ normalize direction)
      × ((e.direction ≡ codes "BUY") ⊎ (e.direction ≡ codes "SELL"))
      × (normalize_exposure_tags e.exposure_tags ≡ ok e.exposure_tags)
unfolding directional_exposure
directional_exposure_sound symbol direction e h = elim (Option-cases (get symbol)) [
  | inl q ↦ ground (arith, q)
  | inr (p, q) ↦ ground (
    arith,
    q,
    get_sound symbol q,
    text_eq_iff (normalize direction) (codes "BUY"),
    text_eq_iff (normalize direction) (codes "SELL"),
  )
]

get-normalize : (symbol : Text) → get (normalize symbol) ≡ get symbol
unfolding get
get-normalize symbol = rw normalize_idem

-- Normalising the arguments first changes nothing.
pub directional_exposure-normalize :
    (symbol direction : Text)
    → directional_exposure (normalize symbol) (normalize direction)
      ≡ directional_exposure symbol direction
unfolding directional_exposure
directional_exposure-normalize symbol direction = λ i. elim (get-normalize symbol i) [
  | none ↦ none
  | some p ↦ expose p (normalize_idem direction i)
]
