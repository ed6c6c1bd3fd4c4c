-- ===== src/Aggregator/Laws.antt =====
-- The aggregated snapshot: complete, sound, and the same in whatever order the sources come.
use mathlib.Core.List.{Permᴰ}
use mss_package.Common.{
  suc, ◌≡◌, refl, ◌∙◌, ap, sym, true, false, Option, some, List, [], ◌∷◌, map, arith, ok, All,
  length,
}
use mss_package.Common.Float.{Float}
use mss_package.Common.Text.{Text}
use mss_package.Journal.Chain.{File}
use mss_package.Journal.Json.{Library}
use mss_package.RiskState.Position.{ShadowPortfolioPositionState}
use mss_package.RiskState.Snapshot.{snapshot}
use mss_package.Aggregator.{recover_prepared, recover}
use mss_package.Aggregator.Gather.Laws.{IsOwned}
use mss_package.Aggregator.Sort.{insert_source, sort_sources}
use mss_package.Aggregator.Sources.{
  ShadowPortfolioJournalSource, ShadowPortfolioAggregateResult, Prepared, prepare,
}
use mss_package.Aggregator.Sources.Laws.{prepare-perm}

perm-length : {A : Type 0} (xs ys : List A) → Permᴰ xs ys → length xs ≡ length ys
perm-length xs ys Permᴰ.nil = refl
perm-length xs ys (Permᴰ.cons {l₁ = l} {l₂ = m} e p) = ap suc (perm-length l m p)
perm-length xs ys (Permᴰ.swap e f) = refl
perm-length xs ys (Permᴰ.trans {l₂ = m} p q) = perm-length xs m p ∙ perm-length m ys q

length-insert_source :
    (x : Prepared) (l : List Prepared) → length (insert_source x l) ≡ suc (length l)
unfolding insert_source
length-insert_source x [] = refl
length-insert_source x (y ∷ l) = ground (arith, length-insert_source x l)

length-sort_sources : (l : List Prepared) → length (sort_sources l) ≡ length l
unfolding sort_sources
length-sort_sources [] = refl
length-sort_sources (x ∷ l) =
    length-insert_source x (sort_sources l) ∙ ap suc (length-sort_sources l)

abbrev symbols_of : List Prepared → List Text
symbols_of = map (λ p. p.0)

module _ {N : Type 0} (L : Library N) (F : Float N) (files : Text → File)
    (resolve : Text → Option Text) where
  -- All sources pass the checks that are made before a journal is read.
  abbrev pub Prepares : List ShadowPortfolioJournalSource → List Prepared → Type 0
  Prepares sources prepared =
      prepare {N = N} resolve (length sources) (λ _. false) (λ _. false) sources ≡ ok prepared

  recover-cons :
      (x : ShadowPortfolioJournalSource) (xs : List ShadowPortfolioJournalSource)
      (prepared : List Prepared)
      → Prepares (x ∷ xs) prepared
      → recover L F files resolve (x ∷ xs) ≡ recover_prepared L F files (ok prepared)
  unfolding recover
  recover-cons x xs prepared h = rw h refl

  recover_prepared-same :
      (l l' : List Prepared)
      → sort_sources l' ≡ sort_sources l
      → recover_prepared L F files (ok l') ≡ recover_prepared L F files (ok l)
  unfolding recover_prepared
  recover_prepared-same l l' h =
      let count : length l' ≡ length l =
        sym (length-sort_sources l') ∙ ap length h ∙ length-sort_sources l in
      rw (h, count) refl

  -- Once all sources pass their checks, the result, or the failure, is the same in whatever order
  -- the sources come.
  pub recover-perm :
      (xs ys : List ShadowPortfolioJournalSource) (prepared : List Prepared)
      → Permᴰ xs ys
      → Prepares xs prepared
      → recover L F files resolve ys ≡ recover L F files resolve xs
  recover-perm [] [] prepared p h = refl
  recover-perm [] (y ∷ ys) prepared p h = absurd (omega (arith, perm-length [] (y ∷ ys) p))
  recover-perm (x ∷ xs) [] prepared p h = absurd (omega (arith, perm-length (x ∷ xs) [] p))
  recover-perm (x ∷ xs) (y ∷ ys) prepared p h =
      let (l, passes, sorted) =
        prepare-perm N resolve (length (x ∷ xs)) (x ∷ xs) (y ∷ ys) p (λ _. false) (λ _. false)
          prepared h in
      recover-cons y ys l (rw (← perm-length (x ∷ xs) (y ∷ ys) p) passes)
      ∙ recover_prepared-same prepared l sorted
      ∙ sym (recover-cons x xs prepared h)

  -- What a valid aggregate is made of.
  pub record IsAggregated (sources : List ShadowPortfolioJournalSource)
      (r : ShadowPortfolioAggregateResult N) : Type 0 where
    pub prepared : List Prepared
    pub passes : Prepares sources prepared
    pub positions : List (ShadowPortfolioPositionState N)
    pub shown : r.snapshot ≡ some (snapshot F positions)
    pub shown_valid : (snapshot F positions).valid ≡ true
    pub owned : All (IsOwned F (symbols_of prepared)) positions
    pub complete :
        (r.recovered_source_count ≡ length prepared)
        × (r.source_count ≡ length prepared)
        × (r.open_position_count ≡ length positions)
