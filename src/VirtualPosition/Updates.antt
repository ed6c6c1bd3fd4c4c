-- ===== src/VirtualPosition/Updates.antt =====
-- What an update from a tick does to a position.
use mss_package.Common.{
  ◌≡◌, refl, ◌⊎◌, inl, inr, true, false, none, some, arith, Bool-cases, Option-cases,
}
use mss_package.Common.Float.{Float, nought}
use mss_package.Common.Int.{ℤ}
use mss_package.Common.Text.{Text}
use mss_package.VirtualPosition.Engine.{
  VirtualPosition, VirtualPositionUpdate, status_closed, is_open, market_close_price, crossed_level,
  exit_trigger, price_r_multiple, close_position, update_from_tick,
}

module _ {N : Type 0} (F : Float N) where
  open F use {le}

  -- The position after its close at a price: all else is as before.
  abbrev pub closed_at : VirtualPosition N → ℤ → Text → N → N → VirtualPosition N
  closed_at p epoch reason price pnl = record p {
    close_broker_epoch = epoch;
    status = status_closed;
    exit_reason = reason;
    close_price = price;
    pnl_account_currency = pnl;
    r_multiple = price_r_multiple F p price;
  }

  -- The second position is the first one, closed.
  pub record IsClosedFrom (p q : VirtualPosition N) : Type 0 where
    pub was_valid : p.valid ≡ true
    pub was_open : is_open p.status ≡ true
    pub price_positive : le q.close_price (nought F) ≡ false
    pub same :
        q ≡ closed_at p q.close_broker_epoch q.exit_reason q.close_price q.pnl_account_currency

  close_position_closes :
      (p : VirtualPosition N) (price : N) (epoch : ℤ) (reason : Text) (pnl : N)
      → p.valid ≡ true
      → is_open p.status ≡ true
      → le price (nought F) ≡ false
      → close_position F p price epoch reason pnl ≡ closed_at p epoch reason price pnl
  unfolding close_position
  close_position_closes p price epoch reason pnl v o c = rw (v, o, c) refl

  close_position_lem :
      (p : VirtualPosition N) (price : N) (epoch : ℤ) (reason : Text) (pnl : N)
      → (close_position F p price epoch reason pnl ≡ p)
        ⊎ ((p.valid ≡ true)
            × (is_open p.status ≡ true)
            × (le price (nought F) ≡ false)
            × (close_position F p price epoch reason pnl ≡ closed_at p epoch reason price pnl))
  unfolding close_position
  close_position_lem p price epoch reason pnl = elim (Bool-cases p.valid) [
    | inr v ↦ inl (ground (arith, v))
    | inl v ↦ elim (Bool-cases (is_open p.status)) [
      | inr o ↦ inl (ground (arith, v, o))
      | inl o ↦ elim (Bool-cases (le price (nought F))) [
        | inl c ↦ inl (ground (arith, v, o, c))
        | inr c ↦ inr (v, o, c, close_position_closes p price epoch reason pnl v o c)
      ]
    ]
  ]

  pub close_position-IsClosedFrom :
      (p : VirtualPosition N) (price : N) (epoch : ℤ) (reason : Text) (pnl : N)
      → (close_position F p price epoch reason pnl ≡ p)
        ⊎ IsClosedFrom p (close_position F p price epoch reason pnl)
  close_position-IsClosedFrom p price epoch reason pnl =
      elim (close_position_lem p price epoch reason pnl) [
        | inl k ↦ inl k
        | inr (v, o, c, e) ↦
            inr (rw e record { was_valid = v; was_open = o; price_positive = c; same = refl })
      ]

  -- What an update that reports a close has done.
  pub record IsClosing (p : VirtualPosition N) (bid ask : N) (epoch : ℤ)
      (u : VirtualPositionUpdate N) : Type 0 where
    pub reported : u.closed ≡ true
    pub was_valid : p.valid ≡ true
    pub was_open : is_open p.status ≡ true
    pub price_positive : le (market_close_price F p.direction bid ask) (nought F) ≡ false
    pub crossed : crossed_level F p (market_close_price F p.direction bid ask) ≡ some u.reason
    pub position :
        u.position
        ≡ closed_at p epoch u.reason (market_close_price F p.direction bid ask) (nought F)

  exit_trigger_inv :
      (p : VirtualPosition N) (bid ask : N) (reason : Text)
      → exit_trigger F p bid ask ≡ some reason
      → (p.valid ≡ true)
        × (is_open p.status ≡ true)
        × (le (market_close_price F p.direction bid ask) (nought F) ≡ false)
        × (crossed_level F p (market_close_price F p.direction bid ask) ≡ some reason)
  unfolding exit_trigger
  exit_trigger_inv p bid ask reason h = ground arith

  pub update_from_tick_closes_or_keeps :
      (p : VirtualPosition N) (bid ask : N) (epoch : ℤ)
      → IsClosing p bid ask epoch (update_from_tick F p bid ask epoch)
        ⊎ (((update_from_tick F p bid ask epoch).closed ≡ false)
            × ((update_from_tick F p bid ask epoch).position ≡ p)
            × (exit_trigger F p bid ask ≡ none))
  unfolding update_from_tick
  update_from_tick_closes_or_keeps p bid ask epoch =
      elim (Option-cases (exit_trigger F p bid ask)) [
        | inl t ↦ inr (ground (arith, t), ground (arith, t), t)
        | inr (reason, t) ↦
            let (v, o, c, x) = exit_trigger_inv p bid ask reason t in
            inl (
              rw t record {
                reported = refl;
                was_valid = v;
                was_open = o;
                price_positive = c;
                crossed = x;
                position = close_position_closes p _ epoch reason (nought F) v o c;
              })
      ]
