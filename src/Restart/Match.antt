-- ===== src/Restart/Match.antt =====
-- When trading is resumed after a restart.
use mss_package.Common.{
  ◌≡◌, refl, ◌∙◌, sym, ap, ◌↔◌, inl, inr, true, false, none, List, [], ◌∷◌, length, ltb, arith,
  Option-cases,
}
use mss_package.Common.Float.{Float}
use mss_package.Common.Int.{ℤ, pos, eqb_ℤ, eq_of_parts}
use mss_package.Common.Text.{text_eq, upper}
use mss_package.VirtualPosition.Engine.{VirtualPosition}
use mss_package.Restart.{
  DemoBrokerPositionSnapshot, DemoBrokerShadowRestartResult, magic_number, is_broker_invalid,
  is_shadow_invalid, mismatch, compare_exposure, reconcile,
}

module _ {N : Type 0} (F : Float N) where
  open F use {ratio, lt, sub, div, abs}

  -- One position at the broker and the same one on paper.
  pub record IsMatch (b : DemoBrokerPositionSnapshot N) (s : VirtualPosition N) : Type 0 where
    pub ours : eqb_ℤ b.magic magic_number ≡ true
    pub broker_valid : is_broker_invalid F b ≡ false
    pub shadow_valid : is_shadow_invalid F s ≡ false
    pub same_symbol : text_eq b.symbol s.symbol ≡ true
    pub same_direction : text_eq (upper b.direction) (upper s.direction) ≡ true
    pub same_volume : lt (div b.volume_step (ratio 2 1)) (abs (sub b.volume s.volume)) ≡ false
    pub same_entry : lt b.point (abs (sub b.entry_price s.entry_price)) ≡ false
    pub same_stop : lt b.point (abs (sub b.stop_loss s.stop_loss)) ≡ false
    pub same_target : lt b.point (abs (sub b.take_profit s.take_profit)) ≡ false
    pub same_epoch : eqb_ℤ b.open_broker_epoch s.open_broker_epoch ≡ true

  -- Exactly one position on each side, and these two match.
  abbrev pub AreMatched : List (DemoBrokerPositionSnapshot N) → List (VirtualPosition N) → Type 0
  AreMatched [] shadows = ⊥
  AreMatched (b ∷ b' ∷ bs) shadows = ⊥
  AreMatched (b ∷ []) [] = ⊥
  AreMatched (b ∷ []) (s ∷ s' ∷ ss) = ⊥
  AreMatched (b ∷ []) (s ∷ []) = IsMatch b s

  mismatch-IsMatch :
      (b : DemoBrokerPositionSnapshot N) (s : VirtualPosition N)
      → mismatch F b s ≡ none
      → IsMatch b s
  unfolding mismatch
  mismatch-IsMatch b s h = record {
    ours = ground arith;
    broker_valid = ground arith;
    shadow_valid = ground arith;
    same_symbol = ground arith;
    same_direction = ground arith;
    same_volume = ground arith;
    same_entry = ground arith;
    same_stop = ground arith;
    same_target = ground arith;
    same_epoch = ground arith;
  }

  match-none :
      (b : DemoBrokerPositionSnapshot N) (s : VirtualPosition N)
      → IsMatch b s
      → mismatch F b s ≡ none
  unfolding mismatch
  match-none b s m =
      rw
        (
          m.ours, m.broker_valid, m.shadow_valid, m.same_symbol, m.same_direction, m.same_volume,
          m.same_entry, m.same_stop, m.same_target, m.same_epoch,
        )
        refl

  reconcile_inv :
      (brokers : List (DemoBrokerPositionSnapshot N)) (pending : ℤ)
      (shadows : List (VirtualPosition N))
      → (reconcile F brokers pending shadows).resume_allowed ≡ true
      → (eqb_ℤ pending (pos 0) ≡ true)
        × (ltb 1 (length brokers) ≡ false)
        × (ltb 1 (length shadows) ≡ false)
        × (reconcile F brokers pending shadows ≡ compare_exposure F brokers shadows)
  unfolding reconcile
  reconcile_inv brokers pending shadows h = ground arith

  resumed :
      (b : DemoBrokerPositionSnapshot N) (s : VirtualPosition N)
      → ((compare_exposure F (b ∷ []) (s ∷ [])).resume_allowed ≡ true) ↔ IsMatch b s
  unfolding compare_exposure
  resumed b s = (
    λ h. elim (Option-cases (mismatch F b s)) [
      | inl q ↦ mismatch-IsMatch b s q
      | inr (why, q) ↦ ground (arith, h, q)
    ],
    λ m. rw (compare_exposure, match-none b s m) refl,
  )

  matched_lists :
      (brokers : List (DemoBrokerPositionSnapshot N)) (shadows : List (VirtualPosition N))
      → ltb 1 (length brokers) ≡ false
      → ltb 1 (length shadows) ≡ false
      → ((compare_exposure F brokers shadows).resume_allowed ≡ true) ↔ AreMatched brokers shadows
  unfolding compare_exposure
  matched_lists [] [] p q = ground arith
  matched_lists [] (s ∷ ss) p q = ground arith
  matched_lists (b ∷ []) [] p q = ground arith
  matched_lists (b ∷ []) (s ∷ []) p q = resumed b s
  matched_lists (b ∷ []) (s ∷ s' ∷ ss) p q = ground arith
  matched_lists (b ∷ b' ∷ bs) shadows p q = ground arith

  nothing_pending : (n : ℤ) → eqb_ℤ n (pos 0) ≡ true → n ≡ pos 0
  nothing_pending n h = eq_of_parts n (pos 0) (ground arith)

  at_most_one :
      (brokers : List (DemoBrokerPositionSnapshot N)) (shadows : List (VirtualPosition N))
      → AreMatched brokers shadows
      → (ltb 1 (length brokers) ≡ false) × (ltb 1 (length shadows) ≡ false)
  at_most_one [] shadows m = absurd m
  at_most_one (b ∷ b' ∷ bs) shadows m = absurd m
  at_most_one (b ∷ []) [] m = absurd m
  at_most_one (b ∷ []) (s ∷ s' ∷ ss) m = absurd m
  at_most_one (b ∷ []) (s ∷ []) m = (refl, refl)

  counts_pass :
      (brokers : List (DemoBrokerPositionSnapshot N)) (shadows : List (VirtualPosition N))
      → ltb 1 (length brokers) ≡ false
      → ltb 1 (length shadows) ≡ false
      → reconcile F brokers (pos 0) shadows ≡ compare_exposure F brokers shadows
  unfolding reconcile
  counts_pass brokers shadows p q = rw (p, q) refl

  -- Trading is resumed after a restart exactly if no order is pending, and the broker and the paper
  -- account have one position each, which are valid and match: the program's magic number, the same
  -- symbol, direction and opening time, volumes that differ by no more than half a step, and entries,
  -- stops and targets by no more than a point.
  pub resume_allowed_iff :
      (brokers : List (DemoBrokerPositionSnapshot N)) (pending : ℤ)
      (shadows : List (VirtualPosition N))
      → ((reconcile F brokers pending shadows).resume_allowed ≡ true)
        ↔ ((pending ≡ pos 0) × AreMatched brokers shadows)
  resume_allowed_iff brokers pending shadows = (
    λ h.
        let (none_pending, p, q, same) = reconcile_inv brokers pending shadows h in
        let resumed_here =
          sym (ap (λ (r : DemoBrokerShadowRestartResult). r.resume_allowed) same) ∙ h in
        (nothing_pending pending none_pending, (matched_lists brokers shadows p q).0 resumed_here),
    λ (none_pending, m).
        let (p, q) = at_most_one brokers shadows m in
        rw (none_pending, counts_pass brokers shadows p q)
          ((matched_lists brokers shadows p q).1 m),
  )
