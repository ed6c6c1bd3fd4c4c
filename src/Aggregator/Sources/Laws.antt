-- ===== src/Aggregator/Sources/Laws.antt =====
-- The checks of the sources do not depend on their order, where they all pass.
use mathlib.Core.List.{Permᴰ}
use mathlib.Core.Path.{fun_ext}
use mss_package.Common.{
  ℕ, ◌≡◌, ◌≢◌, refl, ◌∙◌, ap, sym, false, Option, List, [], ◌∷◌, arith, ok, err, inl, inr,
  Result-cases,
}
use mss_package.Common.Text.{Text, text_eq_iff}
use mss_package.Aggregator.Sort.{sort_sources, insert_source}
use mss_package.Aggregator.Sort.Laws.{insert_source_comm}
use mss_package.Aggregator.Sources.{
  ShadowPortfolioJournalSource, ShadowPortfolioAggregateResult, Prepared, Seen, add, Finding, bad,
  bad_path, good, inspect, admit, prepare,
}

-- A source that passes on its own, and has not been seen.
record Passes (resolve : Text → Option Text) (ss sp : Seen) (x : ShadowPortfolioJournalSource)
    (p : Prepared) (key : Text) : Type 0 where
  found : inspect resolve x ≡ good p.0 p.1 key
  new_symbol : ss p.0 ≡ false
  new_path : sp key ≡ false

add_comm : (s t : Text) (seen : Seen) → add s (add t seen) ≡ add t (add s seen)
add_comm s t seen = fun_ext λ x. ground arith

module _ (N : Type 0) (resolve : Text → Option Text) (count : ℕ) where
  abbrev Refused : Type 0
  Refused = ShadowPortfolioAggregateResult N

  admit_inv :
      (ss sp : Seen) (f : Finding) (p : Prepared) (key : Text)
      → admit {N = N} count ss sp f ≡ ok (p, key)
      → (f ≡ good p.0 p.1 key) × (ss p.0 ≡ false) × (sp key ≡ false)
  unfolding admit
  admit_inv ss sp (bad why symbol) p key h = cc
  admit_inv ss sp (bad_path symbol) p key h = ground arith
  admit_inv ss sp (good symbol resolved k) p key h = ground arith

  admit_good :
      (ss sp : Seen) (p : Prepared) (key : Text)
      → ss p.0 ≡ false
      → sp key ≡ false
      → admit {N = N} count ss sp (good p.0 p.1 key) ≡ ok (p, key)
  unfolding admit
  admit_good ss sp p key h g = ground arith

  prepare_inv :
      (ss sp : Seen) (x : ShadowPortfolioJournalSource) (xs : List ShadowPortfolioJournalSource)
      (l : List Prepared)
      → prepare {N = N} resolve count ss sp (x ∷ xs) ≡ ok l
      → (p : Prepared) × (key : Text) × (rest : List Prepared) × Passes resolve ss sp x p key
        × (prepare {N = N} resolve count (add p.0 ss) (add key sp) xs ≡ ok rest)
        × (l ≡ p ∷ rest)
  unfolding prepare
  prepare_inv ss sp x xs l h = elim (Result-cases (admit {N = N} count ss sp (inspect resolve x))) [
    | inr (e, q) ↦ ground (arith, q)
    | inl ((p, key), q) ↦
        elim (Result-cases (prepare {N = N} resolve count (add p.0 ss) (add key sp) xs)) [
          | inr (e, r) ↦ ground (arith, q, r)
          | inl (rest, r) ↦
              let (f, s, t) = admit_inv ss sp (inspect resolve x) p key q in
              (
                p,
                key,
                rest,
                record { found = f; new_symbol = s; new_path = t },
                r,
                ground (arith, q, r),
              )
        ]
  ]

  prepare_cons :
      (ss sp : Seen) (x : ShadowPortfolioJournalSource) (xs : List ShadowPortfolioJournalSource)
      (p : Prepared) (key : Text) (rest : List Prepared)
      → Passes resolve ss sp x p key
      → prepare {N = N} resolve count (add p.0 ss) (add key sp) xs ≡ ok rest
      → prepare {N = N} resolve count ss sp (x ∷ xs) ≡ ok (p ∷ rest)
  unfolding prepare
  prepare_cons ss sp x xs p key rest h r =
      ground (arith, h.found, admit_good ss sp p key h.new_symbol h.new_path, r)

  -- Two neighbours that pass also pass in the other order.
  swap_Passes :
      (ss sp : Seen) (x y : ShadowPortfolioJournalSource) (p q : Prepared) (key key' : Text)
      → Passes resolve ss sp x p key
      → Passes resolve (add p.0 ss) (add key sp) y q key'
      → Passes resolve ss sp y q key'
        × Passes resolve (add q.0 ss) (add key' sp) x p key
        × (p.0 ≢ q.0)
  swap_Passes ss sp x y p q key key' a b = (
    record {
      found = b.found;
      new_symbol = ground (arith, b.new_symbol);
      new_path = ground (arith, b.new_path);
    },
    record {
      found = a.found;
      new_symbol =
          ground (arith, a.new_symbol, b.new_symbol, text_eq_iff p.0 q.0, text_eq_iff q.0 p.0);
      new_path = ground (arith, a.new_path, b.new_path, text_eq_iff key key', text_eq_iff key' key);
    },
    λ e. ground (arith, e, b.new_symbol, text_eq_iff p.0 q.0),
  )

  -- The sources in another order give the same sorted list.
  pub prepare-perm :
      (xs ys : List ShadowPortfolioJournalSource)
      → Permᴰ xs ys
      → (ss sp : Seen) (l : List Prepared) → prepare {N = N} resolve count ss sp xs ≡ ok l
      → (l' : List Prepared) × (prepare {N = N} resolve count ss sp ys ≡ ok l')
        × (sort_sources l' ≡ sort_sources l)
  unfolding sort_sources
  prepare-perm xs ys Permᴰ.nil ss sp l h = (l, h, refl)
  prepare-perm xs ys (Permᴰ.cons {a = x} {b = y} {l₁ = xs'} {l₂ = ys'} e pf) ss sp l h =
      let (p, key, rest, passes, r, same) = prepare_inv ss sp x xs' l h in
      let (rest', r', sorted) = prepare-perm xs' ys' pf (add p.0 ss) (add key sp) rest r in
      (
        p ∷ rest',
        rw (← e) (prepare_cons ss sp x ys' p key rest' passes r'),
        rw same (ap (insert_source p) sorted),
      )
  prepare-perm xs ys (Permᴰ.swap {a = x} {b = y} {a' = x'} {b' = y'} {l = zs} e f) ss sp l h =
      let (p, key, rest, first, r, same) = prepare_inv ss sp x (y ∷ zs) l h in
      let (q, key', rest', second, r', same') = prepare_inv (add p.0 ss) (add key sp) y zs rest r in
      let (a, b, differ) = swap_Passes ss sp x y p q key key' first second in
      let moved : prepare {N = N} resolve count (add p.0 (add q.0 ss)) (add key (add key' sp)) zs
          ≡ ok rest' =
        rw (add_comm p.0 q.0 ss, add_comm key key' sp) r' in
      (
        q ∷ p ∷ rest',
        rw (← e, ← f)
            (prepare_cons ss sp y (x ∷ zs) q key' (p ∷ rest') a
              (prepare_cons (add q.0 ss) (add key' sp) x zs p key rest' b moved)),
        rw (same, same') (insert_source_comm q p (sort_sources rest') (λ e. differ (sym e))),
      )
  prepare-perm xs ys (Permᴰ.trans {l₂ = ms} pf pg) ss sp l h =
      let (m, hm, sm) = prepare-perm xs ms pf ss sp l h in
      let (l', hl, sl) = prepare-perm ms ys pg ss sp m hm in (l', hl, sl ∙ sm)

module _ (N : Type 0) where
  admit-refuses :
      (count : ℕ) (seen paths : Seen) (f : Finding) (r : ShadowPortfolioAggregateResult N)
      → admit {N = N} count seen paths f ≡ err r
      → r.valid ≡ false
  unfolding admit
  admit-refuses count seen paths (bad why symbol) r h = ground arith
  admit-refuses count seen paths (bad_path symbol) r h = ground arith
  admit-refuses count seen paths (good symbol resolved key) r h = ground arith

module _ (N : Type 0) (resolve : Text → Option Text) where
  -- A source that fails its checks gives a result that is not valid.
  pub prepare-refuses :
      (count : ℕ) (seen paths : Seen) (sources : List ShadowPortfolioJournalSource)
      (r : ShadowPortfolioAggregateResult N)
      → prepare {N = N} resolve count seen paths sources ≡ err r
      → r.valid ≡ false
  unfolding prepare
  prepare-refuses count seen paths [] r h = ground arith
  prepare-refuses count seen paths (source ∷ sources) r h =
      elim (Result-cases (admit {N = N} count seen paths (inspect resolve source))) [
        | inr (e, q) ↦
            admit-refuses N count seen paths (inspect resolve source) r (ground (arith, q))
        | inl ((p, key), q) ↦
            elim (Result-cases
              (prepare {N = N} resolve count (add p.0 seen) (add key paths) sources)) [
                | inr (e, k) ↦
                    prepare-refuses count (add p.0 seen) (add key paths) sources r
                      (ground (arith, q, k))
                | inl (l, k) ↦ ground (arith, q, k)
              ]
      ]
