-- ===== src/Governor/Tags/Laws.antt =====
-- What `normalize_exposure_tags` returns.
use mss_package.Common.{
  ◌≡◌, refl, ap, Option, none, some, List, [], ◌∷◌, ◌++◌, ok, arith, ◌∙◌, inl, inr, Result-cases,
  Option-cases, ℕ,
}
use mss_package.Common.Text.{Text, split_once, normalize, normalize_idem}
use mss_package.Governor.Tags.{check_parts, normalize_tag, keep, normalize_exposure_tags}

-- A split text is its two parts with the character between them.
split_once-join :
    (c : ℕ) (t : Text) {p : Text × Text} → split_once c t ≡ some p → p.0 ++ c ∷ p.1 ≡ t
unfolding split_once
split_once-join c [] h = cc
split_once-join c (d ∷ t) h = elim (Option-cases (split_once c t)) [
  | inl e ↦ ground (arith, e)
  | inr (q, e) ↦ ground (arith, e, split_once-join c t {p = q} e)
]

check_parts_join :
    (p : Text × Text) {o : Option Text} → check_parts p ≡ ok o → o ≡ some (p.0 ++ b':' ∷ p.1)
unfolding check_parts
check_parts_join p h = ground arith

-- A tag that is kept is the normalised text.
normalize_tag-eq-normalize : (raw t : Text) → normalize_tag raw ≡ ok (some t) → t ≡ normalize raw
unfolding normalize_tag
normalize_tag-eq-normalize raw t h = elim (Option-cases (split_once b':' (normalize raw))) [
  | inl e ↦ ground (arith, e)
  | inr (p, e) ↦
      ground (arith, e, check_parts_join p {o = some t}, split_once-join b':' (normalize raw) e)
]

normalize_tag-normalize : (raw : Text) → normalize_tag (normalize raw) ≡ normalize_tag raw
unfolding normalize_tag
normalize_tag-normalize raw = rw normalize_idem

normalize_tag_idem :
    (raw t : Text) → normalize_tag raw ≡ ok (some t) → normalize_tag t ≡ ok (some t)
normalize_tag_idem raw t h =
    ap normalize_tag (normalize_tag-eq-normalize raw t h) ∙ normalize_tag-normalize raw ∙ h

-- One kept tag before tags that are their own normal form.
cons_idem :
    (tag : Option Text) (rest : List Text)
    → ((t : Text) → tag ≡ some t → normalize_tag t ≡ ok (some t))
    → normalize_exposure_tags rest ≡ ok rest
    → normalize_exposure_tags (keep tag rest) ≡ ok (keep tag rest)
unfolding normalize_exposure_tags
cons_idem none rest one h = h
cons_idem (some t) rest one h = rw (one t refl) (rw h refl)

-- Tags that have been normalised are accepted as they are: normalising is idempotent.
normalize_exposure_tags_idem :
    (tags normalized : List Text)
    → normalize_exposure_tags tags ≡ ok normalized
    → normalize_exposure_tags normalized ≡ ok normalized
unfolding normalize_exposure_tags
normalize_exposure_tags_idem [] normalized h = ground arith
normalize_exposure_tags_idem (raw ∷ tags) normalized h = elim (Result-cases (normalize_tag raw)) [
  | inr (e, p) ↦ ground (arith, p)
  | inl (tag, p) ↦ elim (Result-cases (normalize_exposure_tags tags)) [
    | inr (e, q) ↦ ground (arith, p, q)
    | inl (rest, q) ↦
        let same : normalized ≡ keep tag rest = ground (arith, p, q) in
        rw same (
          cons_idem tag rest (λ t e. normalize_tag_idem raw t (p ∙ ap ok e))
            (normalize_exposure_tags_idem tags rest q))
  ]
]
