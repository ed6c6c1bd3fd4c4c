-- ===== src/Aggregator/Gather/Laws.antt =====
-- What the second loop has combined when it ends: sound positions, each under its source's symbol.
use mss_package.Common.{
  ℕ, ◌+◌, ◌≡◌, refl, ◌∙◌, sym, true, false, List, [], ◌∷◌, ◌++◌, arith, Result, ok, err, All,
  All-append, inl, inr, ◌⊎◌, length, Bool-cases, Option-cases, Result-cases,
}
use mathlib.Core.List.{append_assoc, append-nil}
use mss_package.Common.Float.{Float}
use mss_package.Common.Text.{Text, text_eq, text_eq_iff}
use mss_package.Journal.Chain.{File}
use mss_package.Journal.Json.{Library}
use mss_package.Recovery
use mss_package.Recovery.{ShadowPortfolioRiskRecoveryResult, values_of}
use mss_package.Recovery.Laws.{recover_sound}
use mss_package.Recovery.Replay.{Escape}
use mss_package.RiskState.Position.{ShadowPortfolioPositionState}
use mss_package.RiskState.Position.Laws.{IsSound}
use mss_package.RiskState.Snapshot.{snapshot}
use mss_package.RiskState.Snapshot.Sets.{member}
use mss_package.Aggregator.Gather.{
  Gathered, gathered, blocked, escaped, combine, take_snapshot, take_recovery, gather,
}
use mss_package.Aggregator.Sources.{ShadowPortfolioAggregateResult, Prepared}

pub Gathered-cases :
    {N : Type 0} (g : Gathered N)
    → ((n : ℕ) × (ps : List (ShadowPortfolioPositionState N)) × (g ≡ gathered n ps))
      ⊎ (((r : ShadowPortfolioAggregateResult N) × (g ≡ blocked r))
          ⊎ ((e : Escape) × (g ≡ escaped e)))
Gathered-cases (gathered n ps) = inl (n, ps, refl)
Gathered-cases (blocked r) = inr (inl (r, refl))
Gathered-cases (escaped e) = inr (inr (e, refl))

module _ {N : Type 0} where
  combine_sound :
      (c n : ℕ) (symbol : Text) (combined ps : List (ShadowPortfolioPositionState N)) {m : ℕ}
      {out : List (ShadowPortfolioPositionState N)}
      → combine c n symbol combined ps ≡ gathered m out
      → (m ≡ n) × (out ≡ combined ++ ps) × All (λ p. p.symbol ≡ symbol) ps
  unfolding combine
  combine_sound c n symbol combined [] {m} {out} h =
      let same : out ≡ combined = ground arith in
      (ground arith, same ∙ sym (append-nil combined), tt)
  combine_sound c n symbol combined (p ∷ ps) {m} {out} h =
      elim (Bool-cases (text_eq p.symbol symbol)) [
        | inr q ↦ ground (arith, q)
        | inl q ↦
            let (a, b, all) =
              combine_sound c n symbol (combined ++ p ∷ []) ps {m = m} {out = out}
                (ground (arith, q)) in
            (a, b ∙ append_assoc combined (p ∷ []) ps, ((text_eq_iff p.symbol symbol).0 q, all))
      ]

  take_recovery-err :
      (c n : ℕ) (symbol : Text) (combined : List (ShadowPortfolioPositionState N)) (e : Escape)
      → take_recovery c n symbol combined (err e) ≡ escaped e
  unfolding take_recovery
  take_recovery-err c n symbol combined e = refl

module _ {N : Type 0} (F : Float N) (symbols : List Text) where
  -- A sound position of one of the symbols.
  abbrev pub IsOwned : ShadowPortfolioPositionState N → Type 0
  IsOwned p = IsSound F p × (member p.symbol symbols ≡ true)

  own-All :
      (symbol : Text) (ps : List (ShadowPortfolioPositionState N))
      → member symbol symbols ≡ true
      → All (IsSound F) ps
      → All (λ p. p.symbol ≡ symbol) ps
      → All IsOwned ps
  own-All symbol [] m s e = tt
  own-All symbol (p ∷ ps) m s e = ((s.0, rw e.0 m), own-All symbol ps m s.1 e.1)

pub positions-snapshot :
    {N : Type 0} (F : Float N) (ps : List (ShadowPortfolioPositionState N))
    → (snapshot F ps).positions ≡ ps
unfolding snapshot
positions-snapshot F ps = ground arith

module _ {N : Type 0} (L : Library N) (F : Float N) (files : Text → File)
    (symbols : List Text) where
  take_recovery_sound :
      (c n : ℕ) (symbol path : Text) (combined : List (ShadowPortfolioPositionState N))
      (r : ShadowPortfolioRiskRecoveryResult N) {m : ℕ}
      {out : List (ShadowPortfolioPositionState N)}
      → Recovery.recover L F path (files path) ≡ ok r
      → take_recovery c n symbol combined (ok r) ≡ gathered m out
      → member symbol symbols ≡ true
      → All (IsOwned F symbols) combined
      → (m ≡ n + 1) × All (IsOwned F symbols) out
  unfolding take_recovery
  take_recovery_sound c n symbol path combined r {m} {out} h g mem owned =
      elim (Bool-cases r.valid) [
        | inr q ↦ ground (arith, q)
        | inl q ↦
            let s = recover_sound L F path (files path) r h q in
            let shown = s.shown in
            let step : combine c (n + 1) symbol combined (snapshot F (values_of s.book)).positions
                ≡ gathered m out =
              ground (arith, q, shown) in
            let (a, b, all) =
              combine_sound c (n + 1) symbol combined (snapshot F (values_of s.book)).positions
                step in
            let same = positions-snapshot F (values_of s.book) in
            (
              a,
              rw b (
                  All-append (IsOwned F symbols) combined (snapshot F (values_of s.book)).positions
                    owned
                    (own-All F symbols symbol (snapshot F (values_of s.book)).positions mem
                      (rw same s.sound) all)),
            )
      ]

  pub gather_sound :
      (c n : ℕ) (combined : List (ShadowPortfolioPositionState N)) (sources : List Prepared) {m : ℕ}
      {out : List (ShadowPortfolioPositionState N)}
      → gather L F files c n combined sources ≡ gathered m out
      → All (λ s. member s.0 symbols ≡ true) sources
      → All (IsOwned F symbols) combined
      → (m ≡ n + length sources) × All (IsOwned F symbols) out
  unfolding gather
  gather_sound c n combined [] {m} {out} h mem owned =
      let same : out ≡ combined = ground arith in (ground arith, rw same owned)
  gather_sound c n combined ((symbol, path) ∷ sources) {m} {out} h mem owned =
      elim (Result-cases (Recovery.recover L F path (files path))) [
        | inr (e, q) ↦ ground (arith, q, take_recovery-err c n symbol combined e)
        | inl (r, q) ↦ elim (Gathered-cases (take_recovery c n symbol combined (ok r))) [
          | inr (inl (b, g)) ↦ ground (arith, q, g)
          | inr (inr (e, g)) ↦ ground (arith, q, g)
          | inl (k, ps, g) ↦
              let (step, now) = take_recovery_sound c n symbol path combined r q g mem.0 owned in
              let (count, final) =
                gather_sound c k ps sources {m = m} {out = out} (ground (arith, q, g)) mem.1 now in
              (omega arith, final)
        ]
      ]

module _ {N : Type 0} where
  -- A result that is handed on as a refusal is not valid.
  abbrev pub IsRefusal : Gathered N → Type 0
  IsRefusal g = (r : ShadowPortfolioAggregateResult N) → g ≡ blocked r → r.valid ≡ false

  combine-IsRefusal :
      (c n : ℕ) (symbol : Text) (combined ps : List (ShadowPortfolioPositionState N))
      → IsRefusal (combine c n symbol combined ps)
  unfolding combine
  combine-IsRefusal c n symbol combined [] r h = ground arith
  combine-IsRefusal c n symbol combined (p ∷ ps) r h = elim (Bool-cases (text_eq p.symbol symbol)) [
    | inl q ↦ combine-IsRefusal c n symbol (combined ++ p ∷ []) ps r (ground (arith, q))
    | inr q ↦ ground (arith, q)
  ]

  take_recovery-IsRefusal :
      (c n : ℕ) (symbol : Text) (combined : List (ShadowPortfolioPositionState N))
      (result : Result Escape (ShadowPortfolioRiskRecoveryResult N))
      → IsRefusal (take_recovery c n symbol combined result)
  unfolding take_recovery take_snapshot
  take_recovery-IsRefusal c n symbol combined (err e) r h = ground arith
  take_recovery-IsRefusal c n symbol combined (ok result) r h = elim (Bool-cases result.valid) [
    | inr q ↦ ground (arith, q)
    | inl q ↦ elim (Option-cases result.snapshot) [
      | inl s ↦ ground (arith, q, s)
      | inr (t, s) ↦
          combine-IsRefusal c (n + 1) symbol combined t.positions r (ground (arith, q, s))
    ]
  ]

module _ {N : Type 0} (L : Library N) (F : Float N) (files : Text → File) where
  pub gather-IsRefusal :
      (c n : ℕ) (combined : List (ShadowPortfolioPositionState N)) (sources : List Prepared)
      → IsRefusal (gather L F files c n combined sources)
  unfolding gather
  gather-IsRefusal c n combined [] r h = ground arith
  gather-IsRefusal c n combined ((symbol, path) ∷ sources) r h =
      let result = Recovery.recover L F path (files path) in
      elim (Gathered-cases (take_recovery c n symbol combined result)) [
        | inl (k, ps, g) ↦ gather-IsRefusal c k ps sources r (ground (arith, g))
        | inr (inl (b, g)) ↦
            take_recovery-IsRefusal c n symbol combined result r (ground (arith, g))
        | inr (inr (e, g)) ↦ ground (arith, g)
      ]
