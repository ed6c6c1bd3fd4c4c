-- ===== src/Governor/Eligibility/Laws.antt =====
-- When a market is eligible, and what the verdict reports.
use mss_package.Common.{◌≡◌, ◌↔◌, Bool, true, false, arith}
use mss_package.Common.Float.{Float, nought}
use mss_package.Governor.Eligibility.{max_spread_to_stop_ratio, evaluate}

module _ {N : Type 0} (F : Float N) where
  open F use {lt, le, sub, div, abs}

  -- What a quote must meet for a market to be eligible.
  pub record IsEligible (bid ask entry_price stop_loss : N) (symbol_tradable quote_fresh : Bool)
      : Type 0 where
    pub tradable : symbol_tradable ≡ true
    pub fresh : quote_fresh ≡ true
    pub bid_positive : le bid (nought F) ≡ false
    pub ask_positive : le ask (nought F) ≡ false
    pub ordered : lt ask bid ≡ false
    pub entry_positive : le entry_price (nought F) ≡ false
    pub stop_positive : le stop_loss (nought F) ≡ false
    pub stop_distance : le (abs (sub entry_price stop_loss)) (nought F) ≡ false
    pub spread :
        lt (max_spread_to_stop_ratio F) (div (sub ask bid) (abs (sub entry_price stop_loss)))
        ≡ false

  -- A market is eligible exactly if it is tradable and freshly quoted, no price is at or below
  -- zero, the ask is not below the bid, the stop has a distance, and the spread is not more than a
  -- fifth of it.
  pub eligible_iff :
      (bid ask entry_price stop_loss : N) (symbol_tradable quote_fresh : Bool)
      → ((evaluate F bid ask entry_price stop_loss symbol_tradable quote_fresh).eligible ≡ true)
        ↔ IsEligible bid ask entry_price stop_loss symbol_tradable quote_fresh
  unfolding evaluate
  eligible_iff bid ask entry_price stop_loss symbol_tradable quote_fresh =
      (λ h. ground arith, λ h. ground arith)
