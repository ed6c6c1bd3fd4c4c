-- ===== src/Entry/Activation.antt =====
-- What a valid entry is made of.
use mss_package.Common.{
  ◌≡◌, refl, ◌∙◌, sym, ap, ◌⊎◌, inl, inr, Bool, true, false, ◌&&◌, none, some, arith, Option-cases,
}
use mss_package.Common.Float.{Float, nought}
use mss_package.Common.Int.{ℤ, ◌<ℤ◌, leb_ℤ}
use mss_package.Common.Text.{text_eq, text_eq_iff}
use mss_package.Entry.Signal.{FrozenShadowSignal, buy, sell}
use mss_package.Entry.Strategy.{
  FrozenShadowEntry, Quote, active_entry, price_of, activate_at, is_pending, activate_signal,
  activate_entry,
}

module _ {N : Type 0} (F : Float N) where
  open F use {lt, le}

  -- An entry of the signal at the quote.
  pub record IsFilled (s : FrozenShadowSignal N) (epoch : ℤ) (q : Quote N) (e : FrozenShadowEntry N)
      : Type 0 where
    pub armed : (s.valid ≡ true) × (is_pending s.action ≡ true)
    pub later : s.signal_bar_epoch <ℤ epoch
    pub quoted :
        (le q.next_candle_open (nought F) ≡ false)
        × (le q.point (nought F) ≡ false)
        × (lt q.spread_points (nought F) ≡ false)
    pub price : N
    pub priced : price_of F s q ≡ some price
    pub same : e ≡ active_entry F s epoch q price
    pub stop_side :
        ((s.direction ≡ buy) × (le price s.stop_loss ≡ false))
        ⊎ ((s.direction ≡ sell) × (le s.stop_loss price ≡ false))

  activate_signal_inv :
      (s : FrozenShadowSignal N) (epoch : ℤ) (confirmed : Bool) (q : Quote N)
      → (activate_signal F s epoch confirmed q).valid ≡ true
      → (s.valid ≡ true)
        × (is_pending s.action ≡ true)
        × (leb_ℤ epoch s.signal_bar_epoch ≡ false)
        × (le q.next_candle_open (nought F) ≡ false)
        × (le q.point (nought F) ≡ false)
        × (lt q.spread_points (nought F) ≡ false)
        × (activate_signal F s epoch confirmed q ≡ activate_at F s epoch q (price_of F s q))
  unfolding activate_signal
  activate_signal_inv s epoch confirmed q h = ground arith

  price_of_inv :
      (s : FrozenShadowSignal N) (q : Quote N) (price : N)
      → price_of F s q ≡ some price
      → (text_eq s.direction buy ≡ true)
        ⊎ ((text_eq s.direction buy ≡ false) × (text_eq s.direction sell ≡ true))
  unfolding price_of
  price_of_inv s q price h = ground arith

  activate_at-none :
      (s : FrozenShadowSignal N) (epoch : ℤ) (q : Quote N)
      → (activate_at F s epoch q none).valid ≡ false
  unfolding activate_at
  activate_at-none s epoch q = refl

  activate_at-some :
      (s : FrozenShadowSignal N) (epoch : ℤ) (q : Quote N) (price : N)
      → (activate_at F s epoch q (some price)).valid ≡ true
      → (activate_at F s epoch q (some price) ≡ active_entry F s epoch q price)
        × ((text_eq s.direction buy && le price s.stop_loss) ≡ false)
        × ((text_eq s.direction sell && le s.stop_loss price) ≡ false)
  unfolding activate_at
  activate_at-some s epoch q price h = ground arith

  pub activate_entry-IsFilled :
      (s : FrozenShadowSignal N) (epoch : ℤ) (confirmed : Bool) (q : Quote N)
      → (activate_entry F (some s) epoch confirmed q).valid ≡ true
      → IsFilled s epoch q (activate_entry F (some s) epoch confirmed q)
  unfolding activate_entry
  activate_entry-IsFilled s epoch confirmed q h =
      let (v, p, l, o, pt, sp, same) = activate_signal_inv s epoch confirmed q h in
      let valid_at : (activate_at F s epoch q (price_of F s q)).valid ≡ true =
        sym (ap (λ (e : FrozenShadowEntry N). e.valid) same) ∙ h in
      elim (Option-cases (price_of F s q)) [
        | inl n ↦ absurd (cc (valid_at, n, activate_at-none s epoch q))
        | inr (price, n) ↦
            let (filled, no_buy, no_sell) =
              activate_at-some s epoch q price
                (ap (λ x. (activate_at F s epoch q x).valid) (sym n) ∙ valid_at) in
            record {
              armed = (v, p);
              later = ground (arith, l);
              quoted = (o, pt, sp);
              price = price;
              priced = n;
              same = same ∙ ap (activate_at F s epoch q) n ∙ filled;
              stop_side = elim (price_of_inv s q price n) [
                | inl b ↦ inl ((text_eq_iff s.direction buy).0 b, ground (arith, b, no_buy))
                | inr (_, b) ↦ inr ((text_eq_iff s.direction sell).0 b, ground (arith, b, no_sell))
              ];
            }
      ]
