-- ===== src/VirtualPosition/Opening.antt =====
-- Which positions are opened.
use mss_package.Common.{◌≡◌, refl, ◌⊎◌, inl, inr, true, false, ◌||◌, arith, Bool-cases}
use mss_package.Common.Float.{Float, nought}
use mss_package.Common.Text.{Text, text_eq, text_eq_iff, text_eq_self, is_empty, upper}
use mss_package.VirtualPosition.Engine.{
  VirtualPosition, OpenArguments, buy, sell, empty_position, opened_position, are_levels_ordered,
  open_position,
}

module _ {N : Type 0} (F : Float N) where
  open F use {lt, le, sub, abs}

  -- What a valid position must meet from its opening to its end.
  pub record IsTradable (p : VirtualPosition N) : Type 0 where
    pub has_id : is_empty p.position_id ≡ false
    pub has_symbol : is_empty p.symbol ≡ false
    pub volume_positive : le p.volume (nought F) ≡ false
    pub entry_positive : le p.entry_price (nought F) ≡ false
    pub stop_positive : le p.stop_loss (nought F) ≡ false
    pub target_positive : le p.take_profit (nought F) ≡ false
    pub levels :
        ((p.direction ≡ buy)
          × (lt p.stop_loss p.entry_price ≡ true)
          × (lt p.entry_price p.take_profit ≡ true))
        ⊎ ((p.direction ≡ sell)
            × (lt p.take_profit p.entry_price ≡ true)
            × (lt p.entry_price p.stop_loss ≡ true))
    pub risk : p.initial_risk_price ≡ abs (sub p.entry_price p.stop_loss)
    pub risk_positive : le p.initial_risk_price (nought F) ≡ false
    pub never_sent : p.real_order_send_allowed ≡ false

  buy_not_sell : text_eq buy sell ≡ false
  unfolding text_eq
  buy_not_sell = refl

  sell_not_buy : text_eq sell buy ≡ false
  unfolding text_eq
  sell_not_buy = refl

  levels_of :
      (direction : Text) (entry stop target : N)
      → (text_eq direction buy || text_eq direction sell) ≡ true
      → are_levels_ordered F direction entry stop target ≡ true
      → ((direction ≡ buy) × (lt stop entry ≡ true) × (lt entry target ≡ true))
        ⊎ ((direction ≡ sell) × (lt target entry ≡ true) × (lt entry stop ≡ true))
  unfolding are_levels_ordered
  levels_of direction entry stop target k o = elim (Bool-cases (text_eq direction buy)) [
    | inl q ↦ inl ((text_eq_iff direction buy).0 q, ground (arith, q), ground (arith, q))
    | inr q ↦
        let s : text_eq direction sell ≡ true = ground (arith, q) in
        inr ((text_eq_iff direction sell).0 s, ground (arith, q, s), ground (arith, q, s))
  ]

  opened-IsTradable :
      (a : OpenArguments N)
      → (open_position F a).valid ≡ true
      → (open_position F a ≡ opened_position F a) × IsTradable (opened_position F a)
  unfolding open_position
  opened-IsTradable a v = (
    ground arith,
    record {
      has_id = ground arith;
      has_symbol = ground arith;
      volume_positive = ground arith;
      entry_positive = ground arith;
      stop_positive = ground arith;
      target_positive = ground arith;
      levels =
          levels_of (upper a.direction) a.entry_price a.stop_loss a.take_profit (ground arith)
            (ground arith);
      risk = refl;
      risk_positive = ground arith;
      never_sent = refl;
    },
  )

  known_and_ordered :
      (direction : Text) (entry stop target : N)
      → ((direction ≡ buy) × (lt stop entry ≡ true) × (lt entry target ≡ true))
        ⊎ ((direction ≡ sell) × (lt target entry ≡ true) × (lt entry stop ≡ true))
      → ((text_eq direction buy || text_eq direction sell) ≡ true)
        × (are_levels_ordered F direction entry stop target ≡ true)
  unfolding are_levels_ordered
  known_and_ordered direction entry stop target (inl (d, s, t)) =
      let is_buy : text_eq direction buy ≡ true = rw d (text_eq_self buy) in
      let not_sell : text_eq direction sell ≡ false = rw d buy_not_sell in
      (ground (arith, is_buy), ground (arith, is_buy, not_sell, s, t))
  known_and_ordered direction entry stop target (inr (d, t, s)) =
      let is_sell : text_eq direction sell ≡ true = rw d (text_eq_self sell) in
      let not_buy : text_eq direction buy ≡ false = rw d sell_not_buy in
      (ground (arith, is_sell), ground (arith, is_sell, not_buy, s, t))

  tradable_opens :
      (a : OpenArguments N)
      → IsTradable (opened_position F a)
      → open_position F a ≡ opened_position F a
  unfolding open_position
  tradable_opens a t =
      let (known, ordered) =
        known_and_ordered (upper a.direction) a.entry_price a.stop_loss a.take_profit t.levels in
      ground (
        arith, known, ordered, t.has_id, t.has_symbol, t.volume_positive, t.entry_positive,
        t.stop_positive, t.target_positive, t.risk_positive,
      )

  refused_empty :
      (a : OpenArguments N)
      → (open_position F a).valid ≡ false
      → open_position F a ≡ empty_position F
  unfolding open_position
  refused_empty a v = ground arith

  -- `open_position` returns the position of its arguments where that is tradable, and else the
  -- empty position.
  pub open_position_decides :
      (a : OpenArguments N)
      → (IsTradable (opened_position F a) × (open_position F a ≡ opened_position F a))
        ⊎ (¬ IsTradable (opened_position F a) × (open_position F a ≡ empty_position F))
  open_position_decides a = elim (Bool-cases (open_position F a).valid) [
    | inl v ↦ let (same, t) = opened-IsTradable a v in inl (t, same)
    | inr v ↦ inr ((λ t. absurd (cc (v, tradable_opens a t))), refused_empty a v)
  ]
