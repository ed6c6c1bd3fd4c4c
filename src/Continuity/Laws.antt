-- ===== src/Continuity/Laws.antt =====
-- When a session may go on, and when it takes over a position.
use mss_package.Common.{◌≢◌, Bool-cases}
use mss_package.Common.{
  ◌≡◌, refl, ◌↔◌, ◌⊎◌, inl, inr, Bool, true, false, Option, none, some, List, [], ◌∷◌, arith,
}
use mss_package.Common.Float.{Float}
use mss_package.RiskState.Position.{ShadowPortfolioPositionState}
use mss_package.RiskState.Snapshot.{ShadowPortfolioSnapshot}
use mss_package.Continuity.{
  block, import_required, is_same_position, compare_positions, judge_counts, evaluate,
}

module _ {N : Type 0} (F : Float N) where
  -- At most one position in all: where both sessions have one, it is the same.
  abbrev pub AreOne :
      List (ShadowPortfolioPositionState N) → List (ShadowPortfolioPositionState N) → Type 0
  AreOne [] [] = Unit
  AreOne [] (q ∷ []) = Unit
  AreOne (p ∷ []) [] = Unit
  AreOne (p ∷ []) (q ∷ []) = is_same_position F p q ≡ true
  AreOne [] (q ∷ q' ∷ qs) = ⊥
  AreOne (p ∷ []) (q ∷ q' ∷ qs) = ⊥
  AreOne (p ∷ p' ∷ ps) qs = ⊥

  pub record IsContinuous (current predecessor : Option (ShadowPortfolioSnapshot N)) : Type 0 where
    pub now : ShadowPortfolioSnapshot N
    pub before : ShadowPortfolioSnapshot N
    pub has_current : current ≡ some now
    pub has_predecessor : predecessor ≡ some before
    pub both_valid : (now.valid ≡ true) × (before.valid ≡ true)
    pub one : AreOne now.positions before.positions

  judge_counts-AreOne :
      (ps qs : List (ShadowPortfolioPositionState N)) (consumed : Bool)
      → ((judge_counts F ps qs consumed).valid ≡ true) ↔ AreOne ps qs
  unfolding judge_counts compare_positions
  judge_counts-AreOne [] [] consumed = ground arith
  judge_counts-AreOne [] (q ∷ []) consumed = ground arith
  judge_counts-AreOne (p ∷ []) [] consumed = ground arith
  judge_counts-AreOne (p ∷ []) (q ∷ []) consumed = ground arith
  judge_counts-AreOne [] (q ∷ q' ∷ qs) consumed = ground arith
  judge_counts-AreOne (p ∷ []) (q ∷ q' ∷ qs) consumed = ground arith
  judge_counts-AreOne (p ∷ p' ∷ ps) qs consumed = ground arith

  some_inj : {a b : ShadowPortfolioSnapshot N} → some a ≡ some b → a ≡ b
  some_inj h = cc h

  evaluate-IsContinuous :
      (current predecessor : Option (ShadowPortfolioSnapshot N)) (consumed : Bool)
      → ((evaluate F current predecessor consumed).valid ≡ true) ↔ IsContinuous current predecessor
  unfolding evaluate
  evaluate-IsContinuous none predecessor consumed =
      (λ h. absurd (cc h), λ c. absurd (cc c.has_current))
  evaluate-IsContinuous (some s) none consumed =
      (λ h. absurd (cc h), λ c. absurd (cc c.has_predecessor))
  evaluate-IsContinuous (some s) (some t) consumed =
      let (counted, one) = judge_counts-AreOne s.positions t.positions consumed in
      (
        λ h. record {
          now = s;
          before = t;
          has_current = refl;
          has_predecessor = refl;
          both_valid = (ground (arith, h), ground (arith, h));
          one = counted (ground (arith, h));
        },
        λ c.
            let same_now : s ≡ c.now = some_inj c.has_current in
            let same_before : t ≡ c.before = some_inj c.has_predecessor in
            let s_valid : s.valid ≡ true = rw same_now c.both_valid.0 in
            let t_valid : t.valid ≡ true = rw same_before c.both_valid.1 in
            let together : AreOne s.positions t.positions = rw (same_now, same_before) c.one in
            rw (s_valid, t_valid) (one together),
      )

  evaluate_blocks :
      (current predecessor : Option (ShadowPortfolioSnapshot N)) (consumed : Bool)
      → ((evaluate F current predecessor consumed).action ≡ block)
        ↔ ((evaluate F current predecessor consumed).valid ≡ false)
  unfolding evaluate judge_counts compare_positions
  evaluate_blocks none predecessor consumed = ground arith
  evaluate_blocks (some s) none consumed = ground arith
  evaluate_blocks (some s) (some t) consumed = ground arith

  -- A session goes on, or takes over a position, exactly if both snapshots are there and valid and
  -- hold at most one position between them; else it is blocked.
  evaluate_decides :
      (current predecessor : Option (ShadowPortfolioSnapshot N)) (consumed : Bool)
      → let r = evaluate F current predecessor consumed in
        ((r.valid ≡ true) × (r.action ≢ block) × IsContinuous current predecessor)
        ⊎ ((r.valid ≡ false) × (r.action ≡ block) × ¬ IsContinuous current predecessor)
  evaluate_decides current predecessor consumed =
      let r = evaluate F current predecessor consumed in
      let (continuous, valid) = evaluate-IsContinuous current predecessor consumed in
      let (blocks, is_blocked) = evaluate_blocks current predecessor consumed in
      elim (Bool-cases r.valid) [
        | inl v ↦ inl (v, λ b. absurd (cc (v, blocks b)), continuous v)
        | inr v ↦ inr (v, is_blocked v, λ c. absurd (cc (v, valid c)))
      ]

  -- The predecessor's position is to be taken over.
  pub record IsImport (current predecessor : Option (ShadowPortfolioSnapshot N)) (consumed : Bool)
      : Type 0 where
    pub now : ShadowPortfolioSnapshot N
    pub before : ShadowPortfolioSnapshot N
    pub position : ShadowPortfolioPositionState N
    pub has_current : current ≡ some now
    pub has_predecessor : predecessor ≡ some before
    pub both_valid : (now.valid ≡ true) × (before.valid ≡ true)
    pub no_current : now.positions ≡ []
    pub one_before : before.positions ≡ position ∷ []
    pub not_consumed : consumed ≡ false

  counts_import :
      (ps qs : List (ShadowPortfolioPositionState N)) (consumed : Bool)
      → (judge_counts F ps qs consumed).action ≡ import_required
      → (q : ShadowPortfolioPositionState N) × (ps ≡ [])
        × (qs ≡ q ∷ [])
        × (consumed ≡ false)
        × ((judge_counts F ps qs consumed).position_id ≡ q.position_id)
  unfolding judge_counts compare_positions
  counts_import [] [] consumed h = ground arith
  counts_import [] (q ∷ []) consumed h = (q, refl, refl, ground arith, ground arith)
  counts_import (p ∷ []) [] consumed h = ground arith
  counts_import (p ∷ []) (q ∷ []) consumed h = ground arith
  counts_import [] (q ∷ q' ∷ qs) consumed h = ground arith
  counts_import (p ∷ []) (q ∷ q' ∷ qs) consumed h = ground arith
  counts_import (p ∷ p' ∷ ps) qs consumed h = ground arith

  evaluate_inv :
      (current predecessor : Option (ShadowPortfolioSnapshot N)) (consumed : Bool)
      → (evaluate F current predecessor consumed).action ≡ import_required
      → IsImport current predecessor consumed
  unfolding evaluate
  evaluate_inv none predecessor consumed h = ground arith
  evaluate_inv (some s) none consumed h = ground arith
  evaluate_inv (some s) (some t) consumed h =
      let (q, e, f, c, _) = counts_import s.positions t.positions consumed (ground (arith, h)) in
      record {
        now = s;
        before = t;
        position = q;
        has_current = refl;
        has_predecessor = refl;
        both_valid = (ground (arith, h), ground (arith, h));
        no_current = e;
        one_before = f;
        not_consumed = c;
      }

  imports :
      (current predecessor : Option (ShadowPortfolioSnapshot N)) (consumed : Bool)
      → IsImport current predecessor consumed
      → (evaluate F current predecessor consumed).action ≡ import_required
  unfolding evaluate judge_counts compare_positions
  imports current predecessor consumed i =
      rw
        (
          i.has_current, i.has_predecessor, i.both_valid.0, i.both_valid.1, i.no_current,
          i.one_before, i.not_consumed,
        )
        refl

  -- The predecessor's position is taken over exactly if both snapshots are there and valid, no
  -- position is open now, the predecessor has one, and it has not been consumed.
  pub import_required_iff :
      (current predecessor : Option (ShadowPortfolioSnapshot N)) (consumed : Bool)
      → ((evaluate F current predecessor consumed).action ≡ import_required)
        ↔ IsImport current predecessor consumed
  import_required_iff current predecessor consumed =
      (evaluate_inv current predecessor consumed, imports current predecessor consumed)
