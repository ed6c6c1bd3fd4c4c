-- ===== src/ShadowTrade/Closing.antt =====
-- When an update closes a position, and what it writes.
use mss_package.ShadowTrade.{event_of}
use mss_package.ShadowTrade.{result, already_closed, position_not_open}
use mss_package.Common.{
  ◌≡◌, refl, ap, true, false, ◌⊎◌, Option, none, some, arith, ok, err, inl, inr, Bool-cases,
}
use mss_package.Common.Float.{Float}
use mss_package.Common.Int.{ℤ}
use mss_package.Common.Text.{Text, codes}
use mss_package.Journal.Append.{append_event}
use mss_package.Journal.Chain.{File}
use mss_package.Journal.Json.{Library}
use mss_package.RiskState.Position.{is_prohibited}
use mss_package.ShadowTrade.{TradeError, ShadowTradeEngineResult, Trade, is_closed, closed_payload}
use mss_package.ShadowTrade.Update.{
  closed, close_valued, close_with, update_triggered, update_position, update_trade,
}
use mss_package.Sizing.{Terminal}
use mss_package.Valuation.{ShadowValuationResult, calculate}
use mss_package.VirtualPosition.Engine.{
  VirtualPosition, Status, status_new, status_open, status_closed, is_open, exit_trigger,
  market_close_price, close_position,
}
use mss_package.VirtualPosition.Updates.{IsClosedFrom, close_position-IsClosedFrom}

module _ {N : Type 0} (L : Library N) (F : Float N) (T : Terminal N) (path : Text) (bid ask : N)
    (epoch : ℤ) (file : File) where
  -- Nothing is written.
  abbrev pub IsUnwritten : Trade N → Type 0
  IsUnwritten (r, file') =
      (file' ≡ file)
      × (((e : TradeError) × (r ≡ err e))
          ⊎ ((q : ShadowTradeEngineResult N) × (r ≡ ok q) × (q.journal_event ≡ none)))

  pub unwritten_event : (out : Trade N) → IsUnwritten out → event_of out ≡ none
  unwritten_event (r, file') (same, inl (e, q)) = rw q refl
  unwritten_event (r, file') (same, inr (q, e, j)) = rw e j

  abbrev pub close_price : VirtualPosition N → N
  close_price p = market_close_price F p.direction bid ask

  abbrev pub valuation_of : VirtualPosition N → ShadowValuationResult N
  valuation_of p = calculate F T (record {
    symbol = p.symbol;
    direction = p.direction;
    volume = p.volume;
    entry_price = p.entry_price;
    close_price = close_price p;
  })

  -- A level has been reached, the close has a value, and the result is that of the append of it.
  pub record IsClosing (p : VirtualPosition N) (out : Trade N) : Type 0 where
    pub allowed : is_prohibited path ≡ false
    pub trigger : Text
    pub reached : exit_trigger F p bid ask ≡ some trigger
    pub worth : (valuation_of p).valid ≡ true
    pub position : VirtualPosition N
    pub position_is :
        position
        ≡ close_position F p (close_price p) epoch trigger (valuation_of p).pnl_account_currency
    pub closed_from : IsClosedFrom F p position
    pub appended :
        out
        ≡ closed L F T position trigger (
            append_event L
              (codes "POSITION_CLOSED")
              position.position_id
              epoch
              (closed_payload position)
              file)

  not_both : (s : Status) → is_open s ≡ true → is_closed s ≡ false
  not_both status_new e = refl
  not_both status_open e = refl
  not_both status_closed e = absurd (cc e)

  module _ (p : VirtualPosition N) (h : is_prohibited path ≡ false)
      (opened : is_open p.status ≡ true) where
    close_valued-IsClosing :
        (trigger : Text)
        → exit_trigger F p bid ask ≡ some trigger
        → (valuation_of p).valid ≡ true
        → let out =
            close_valued L F T p
              (close_price p)
              epoch
              trigger
              (valuation_of p).pnl_account_currency
              file in
          IsUnwritten out ⊎ IsClosing p out
    unfolding close_valued
    close_valued-IsClosing trigger e w =
        let q =
          close_position F p (close_price p) epoch trigger (valuation_of p).pnl_account_currency in
        elim (Bool-cases (is_closed q.status)) [
          | inr s ↦ inl (rw s (refl, inr (_, refl, refl)))
          | inl s ↦
              elim (close_position-IsClosedFrom F p (close_price p) epoch trigger
                (valuation_of p).pnl_account_currency) [
                  | inl same ↦ absurd (
                      cc (
                        not_both p.status opened,
                        ap (λ (x : VirtualPosition N). is_closed x.status) same,
                        s,
                      ))
                  | inr c ↦ inr (record {
                    allowed = h;
                    trigger = trigger;
                    reached = e;
                    worth = w;
                    position = q;
                    position_is = refl;
                    closed_from = c;
                    appended = rw s refl;
                  })
                ]
        ]

    close_with-IsClosing :
        (trigger : Text)
        → exit_trigger F p bid ask ≡ some trigger
        → let out = close_with L F T p (close_price p) epoch trigger (valuation_of p) file in
          IsUnwritten out ⊎ IsClosing p out
    unfolding close_with
    close_with-IsClosing trigger e = elim (Bool-cases (valuation_of p).valid) [
      | inr w ↦ inl (rw w (refl, inr (_, refl, refl)))
      | inl w ↦
          let same : close_with L F T p (close_price p) epoch trigger (valuation_of p) file
              ≡ close_valued L F T p (close_price p) epoch trigger
                  (valuation_of p).pnl_account_currency file =
            ground (arith, w) in
          rw same (close_valued-IsClosing trigger e w)
    ]

    update_triggered-IsClosing :
        (trigger : Option Text)
        → exit_trigger F p bid ask ≡ trigger
        → let out = update_triggered L F T p bid ask epoch trigger file in
          IsUnwritten out ⊎ IsClosing p out
    unfolding update_triggered
    update_triggered-IsClosing none e = inl (refl, inr (_, refl, refl))
    update_triggered-IsClosing (some trigger) e = close_with-IsClosing trigger e

  update_position-IsClosing :
      (p : VirtualPosition N)
      → is_prohibited path ≡ false
      → let out = update_position L F T (some p) bid ask epoch file in
        IsUnwritten out ⊎ IsClosing p out
  unfolding update_position
  update_position-IsClosing p h = elim (Bool-cases p.valid) [
    | inr v ↦ inl (rw v (refl, inr (_, refl, refl)))
    | inl v ↦ elim (Bool-cases (is_open p.status)) [
      | inr o ↦
          let same : update_position L F T (some p) bid ask epoch file
              ≡ (ok (result true already_closed position_not_open (some p) none none), file) =
            ground (arith, v, o) in
          inl (rw same (refl, inr (_, refl, refl)))
      | inl o ↦
          let same : update_position L F T (some p) bid ask epoch file
              ≡ update_triggered L F T p bid ask epoch (exit_trigger F p bid ask) file =
            ground (arith, v, o) in
          rw same (update_triggered-IsClosing p h o (exit_trigger F p bid ask) refl)
    ]
  ]

  -- An update either writes nothing, or the path is allowed, the position was valid and open and has
  -- reached a level at a price above zero, the terminal has given the close a value, and the outcome
  -- is that of appending the close of that position to the journal.
  pub update_trade-IsClosing :
      (p : VirtualPosition N)
      → IsUnwritten (update_trade L F T path (some p) bid ask epoch file)
        ⊎ IsClosing p (update_trade L F T path (some p) bid ask epoch file)
  unfolding update_trade
  update_trade-IsClosing p = elim (Bool-cases (is_prohibited path)) [
    | inl h ↦ inl (rw h (refl, inl (_, refl)))
    | inr h ↦ rw h (update_position-IsClosing p h)
  ]
