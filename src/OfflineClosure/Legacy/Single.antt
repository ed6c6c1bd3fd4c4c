-- ===== src/OfflineClosure/Legacy/Single.antt =====
-- The entry of a lifecycle is the candidate that was found.
use mss_package.Common.{
  ◌≡◌, ◌≢◌, ◌∙◌, ap, inl, inr, Bool, true, false, List, [], ◌∷◌, any, ok, arith, Bool-cases,
}
use mss_package.OfflineClosure.{DemoBrokerDealSnapshot, is_entry, is_exit, is_other, filter}
use mss_package.OfflineClosure.Legacy.{legacy_pair, take_legacy_pair}

module _ {N : Type 0} where
  legacy_pair-ok :
      (es xs : List (DemoBrokerDealSnapshot N)) (entry exit : DemoBrokerDealSnapshot N)
      → legacy_pair es xs ≡ ok (entry, exit)
      → (es ≡ entry ∷ []) × (xs ≡ exit ∷ [])
  unfolding legacy_pair
  legacy_pair-ok [] xs entry exit h = ground (arith, h)
  legacy_pair-ok (e ∷ []) [] entry exit h = ground (arith, h)
  legacy_pair-ok (e ∷ []) (x ∷ []) entry exit h = ground (arith, h)
  legacy_pair-ok (e ∷ []) (x ∷ y ∷ xs) entry exit h = ground (arith, h)
  legacy_pair-ok (e ∷ e' ∷ es) xs entry exit h = ground (arith, h)

  pub take_legacy_pair-singles :
      (ds : List (DemoBrokerDealSnapshot N)) (entry exit : DemoBrokerDealSnapshot N)
      → take_legacy_pair ds ≡ ok (entry, exit)
      → (any is_other ds ≡ false)
        × (filter is_entry ds ≡ entry ∷ [])
        × (filter is_exit ds ≡ exit ∷ [])
  unfolding take_legacy_pair
  take_legacy_pair-singles ds entry exit h = elim (Bool-cases (any is_other ds)) [
    | inl o ↦ ground (arith, o, h)
    | inr o ↦
        let (e, x) =
          legacy_pair-ok (filter is_entry ds) (filter is_exit ds) entry exit
            (ground (arith, o, h)) in
        (o, e, x)
  ]

  -- A deal that one test finds is there for two others that it passes.
  found_stays :
      (p q r : DemoBrokerDealSnapshot N → Bool) (ds : List (DemoBrokerDealSnapshot N))
      (x : DemoBrokerDealSnapshot N)
      → q x ≡ true
      → r x ≡ true
      → filter p ds ≡ x ∷ []
      → filter q (filter r ds) ≢ []
  unfolding filter
  found_stays p q r [] x a b h k = ground (arith, h)
  found_stays p q r (d ∷ ds) x a b h k = elim (Bool-cases (p d)) [
    | inl t ↦
        let same : d ≡ x = ground (arith, t, h) in ground (arith, ap q same ∙ a, ap r same ∙ b, k)
    | inr n ↦
        let later : filter p ds ≡ x ∷ [] = ground (arith, n, h) in
        elim (Bool-cases (r d)) [
          | inr b' ↦ found_stays p q r ds x a b later (ground (arith, b', k))
          | inl b' ↦ elim (Bool-cases (q d)) [
            | inl a' ↦ ground (arith, a', b', k)
            | inr a' ↦ found_stays p q r ds x a b later (ground (arith, a', b', k))
          ]
        ]
  ]

  -- The one deal that passes those two tests is then the same.
  pub same_single :
      (p q r : DemoBrokerDealSnapshot N → Bool) (ds : List (DemoBrokerDealSnapshot N))
      (x y : DemoBrokerDealSnapshot N)
      → q x ≡ true
      → r x ≡ true
      → filter p ds ≡ x ∷ []
      → filter q (filter r ds) ≡ y ∷ []
      → y ≡ x
  unfolding filter
  same_single p q r [] x y a b h k = ground (arith, h)
  same_single p q r (d ∷ ds) x y a b h k = elim (Bool-cases (p d)) [
    | inl t ↦
        let same : d ≡ x = ground (arith, t, h) in
        ground (arith, same, ap q same ∙ a, ap r same ∙ b, k)
    | inr n ↦
        let later : filter p ds ≡ x ∷ [] = ground (arith, n, h) in
        elim (Bool-cases (r d)) [
          | inr b' ↦ same_single p q r ds x y a b later (ground (arith, b', k))
          | inl b' ↦ elim (Bool-cases (q d)) [
            | inr a' ↦ same_single p q r ds x y a b later (ground (arith, a', b', k))
            | inl a' ↦
                let empty : filter q (filter r ds) ≡ [] = ground (arith, a', b', k) in
                absurd (found_stays p q r ds x a b later empty)
          ]
        ]
  ]
