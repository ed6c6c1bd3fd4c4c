-- ===== src/VirtualPosition/Lifecycle.antt =====
-- Everything that can happen to a position, as steps: ticks, and closes from outside.
use mss_package.Common.{◌≡◌, refl, ◌∙◌, sym, ap, ◌⊎◌, inl, inr, false}
use mss_package.Common.Float.{Float}
use mss_package.Common.Int.{ℤ}
use mss_package.Common.Text.{Text}
use mss_package.VirtualPosition.Engine.{
  VirtualPosition, OpenArguments, is_open, empty_position, opened_position, open_position,
  close_position, update_from_tick,
}
use mss_package.VirtualPosition.Opening.{IsTradable, open_position_decides}
use mss_package.VirtualPosition.Updates.{
  IsClosedFrom, close_position-IsClosedFrom, update_from_tick_closes_or_keeps,
}

module _ {N : Type 0} (F : Float N) where
  -- One call of the engine on a position.
  pub data Step (p q : VirtualPosition N) : Type 0 where
    tick : (bid ask : N) (epoch : ℤ) → q ≡ (update_from_tick F p bid ask epoch).position → Step p q
    close :
        (price : N) (epoch : ℤ) (reason : Text) (pnl : N)
        → q ≡ close_position F p price epoch reason pnl
        → Step p q

  -- Any number of calls, each on the position that the one before returned.
  pub data Reaches : VirtualPosition N → VirtualPosition N → Type 0 where
    done : {p : VirtualPosition N} → Reaches p p
    next : {p r q : VirtualPosition N} → Step p r → Reaches r q → Reaches p q

  -- The position as it was, or closed.
  abbrev pub KeptOrClosed : VirtualPosition N → VirtualPosition N → Type 0
  KeptOrClosed p q = (q ≡ p) ⊎ IsClosedFrom F p q

  Step-KeptOrClosed : (p q : VirtualPosition N) → Step p q → KeptOrClosed p q
  Step-KeptOrClosed p q (close price epoch reason pnl e) =
      rw e (close_position-IsClosedFrom F p price epoch reason pnl)
  Step-KeptOrClosed p q (tick bid ask epoch e) =
      elim (update_from_tick_closes_or_keeps F p bid ask epoch) [
        | inr (_, k, _) ↦ inl (e ∙ k)
        | inl c ↦ inr (
            rw (e ∙ c.position) record {
              was_valid = c.was_valid;
              was_open = c.was_open;
              price_positive = c.price_positive;
              same = refl;
            })
      ]

  closed_not_open : (p q : VirtualPosition N) → IsClosedFrom F p q → is_open q.status ≡ false
  closed_not_open p q c = ap (λ (x : VirtualPosition N). is_open x.status) c.same

  -- However often it is updated and closed, a position stays as it was opened, or it is closed once
  -- and then stays as it was closed.
  pub Reaches-KeptOrClosed : (p q : VirtualPosition N) → Reaches p q → KeptOrClosed p q
  Reaches-KeptOrClosed p q done = inl refl
  Reaches-KeptOrClosed p q (next {r = r} s t) = elim (Step-KeptOrClosed p r s) [
    | inl e ↦ rw (sym e) (Reaches-KeptOrClosed r q t)
    | inr c ↦ elim (Reaches-KeptOrClosed r q t) [
      | inl e ↦ inr (rw e c)
      | inr d ↦ absurd (cc (d.was_open, closed_not_open p r c))
    ]
  ]

  -- A position that is closed, or not valid, is never changed again.
  closed_stays : (p q : VirtualPosition N) → is_open p.status ≡ false → Reaches p q → q ≡ p
  closed_stays p q o s = elim (Reaches-KeptOrClosed p q s) [
    | inl e ↦ e
    | inr c ↦ absurd (cc (c.was_open, o))
  ]

  -- Whatever calls follow the opening: the empty position stays empty; a position that was opened is
  -- tradable and stays as it was, or it has been closed once, at a price above zero, with its R
  -- multiple at that price and all else as it was opened.
  pub position_life :
      (a : OpenArguments N) (q : VirtualPosition N)
      → Reaches (open_position F a) q
      → (q ≡ empty_position F)
        ⊎ (IsTradable F (opened_position F a) × KeptOrClosed (opened_position F a) q)
  position_life a q s = elim (open_position_decides F a) [
    | inl (t, e) ↦ inr (t, rw (sym e) (Reaches-KeptOrClosed (open_position F a) q s))
    | inr (_, e) ↦ inl (
        closed_stays (open_position F a) q (ap (λ (x : VirtualPosition N). is_open x.status) e) s
        ∙ e)
  ]
