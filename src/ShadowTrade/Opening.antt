-- ===== src/ShadowTrade/Opening.antt =====
-- What an opening has passed, and what it writes.
use mss_package.ShadowTrade.{event_of}
use mss_package.Common.{
  ◌≡◌, refl, true, false, ◌⊎◌, none, arith, Result, ok, err, inl, inr, Bool-cases,
}
use mss_package.Common.Float.{Float}
use mss_package.Common.Text.{Text, codes}
use mss_package.Journal.Append.{append_event}
use mss_package.Journal.Chain.{File}
use mss_package.Journal.Json.{Library}
use mss_package.RiskState.Position.{is_prohibited}
use mss_package.ShadowTrade.{
  TradeError, ShadowTradeEngineResult, TradeArguments, Trade, risk_arguments, position_arguments,
  opened_payload,
}
use mss_package.ShadowTrade.Open.{opened, open_sized, open_checked, open_with_risk, open_trade}
use mss_package.ShadowTrade.Override.{Checked, blocked, tradable, check_override}
use mss_package.Sizing.{Terminal, Rounding, RoundingError, ShadowRiskResult, calculate}
use mss_package.VirtualPosition.Engine.{VirtualPosition, opened_position}
use mss_package.VirtualPosition.Opening.{IsTradable, open_position_decides}

module _ {N : Type 0} (L : Library N) (F : Float N) (T : Terminal N) (R : Rounding N) (path : Text)
    (a : TradeArguments N) (file : File) where
  -- Nothing is written, and nothing is opened.
  abbrev pub IsRefused : Trade N → Type 0
  IsRefused (r, file') =
      (file' ≡ file)
      × (((e : TradeError) × (r ≡ err e))
          ⊎ ((q : ShadowTradeEngineResult N) × (r ≡ ok q)
              × (q.valid ≡ false)
              × (q.journal_event ≡ none)))

  pub refused_event : (out : Trade N) → IsRefused out → event_of out ≡ none
  refused_event (r, file') (same, inl (e, q)) = rw q refl
  refused_event (r, file') (same, inr (q, e, v, j)) = rw e j

  abbrev pub position_for : ShadowRiskResult N → VirtualPosition N
  position_for used = opened_position F (position_arguments a used.normalized_volume)

  -- All checks have passed, and the result is that of the append of the opening.
  pub record IsOpening (out : Trade N) : Type 0 where
    pub allowed : is_prohibited path ≡ false
    pub risk : ShadowRiskResult N
    pub sized : calculate F T R (risk_arguments a) ≡ ok risk
    pub sized_valid : risk.valid ≡ true
    pub used : ShadowRiskResult N
    pub checked : check_override F R risk a.balance a.volume_override ≡ ok (tradable used)
    pub sound : IsTradable F (position_for used)
    pub appended :
        out
        ≡ opened L F T R (position_for used) used (
            append_event L
              (codes "POSITION_OPENED")
              a.position_id
              a.broker_epoch
              (opened_payload (position_for used) used)
              file)

  open_sized-IsOpening :
      (risk used : ShadowRiskResult N)
      → is_prohibited path ≡ false
      → calculate F T R (risk_arguments a) ≡ ok risk
      → risk.valid ≡ true
      → check_override F R risk a.balance a.volume_override ≡ ok (tradable used)
      → IsRefused (open_sized L F T R a used file) ⊎ IsOpening (open_sized L F T R a used file)
  unfolding open_sized
  open_sized-IsOpening risk used h s v c =
      elim (open_position_decides F (position_arguments a used.normalized_volume)) [
        | inr (untradable, e) ↦ inl (rw e (refl, inr (_, refl, refl, refl)))
        | inl (t, e) ↦ inr (record {
          allowed = h;
          risk = risk;
          sized = s;
          sized_valid = v;
          used = used;
          checked = c;
          sound = t;
          appended = rw e refl;
        })
      ]

  open_checked-IsOpening :
      (risk : ShadowRiskResult N) (c : Result RoundingError (Checked N))
      → is_prohibited path ≡ false
      → calculate F T R (risk_arguments a) ≡ ok risk
      → risk.valid ≡ true
      → check_override F R risk a.balance a.volume_override ≡ c
      → IsRefused (open_checked L F T R a risk c file)
        ⊎ IsOpening (open_checked L F T R a risk c file)
  unfolding open_checked
  open_checked-IsOpening risk (err e) h s v c = inl (refl, inl (_, refl))
  open_checked-IsOpening risk (ok (blocked why)) h s v c = inl (refl, inr (_, refl, refl, refl))
  open_checked-IsOpening risk (ok (tradable used)) h s v c = open_sized-IsOpening risk used h s v c

  open_with_risk-IsOpening :
      (r : Result RoundingError (ShadowRiskResult N))
      → is_prohibited path ≡ false
      → calculate F T R (risk_arguments a) ≡ r
      → IsRefused (open_with_risk L F T R a r file) ⊎ IsOpening (open_with_risk L F T R a r file)
  unfolding open_with_risk
  open_with_risk-IsOpening (err e) h s = inl (refl, inl (_, refl))
  open_with_risk-IsOpening (ok risk) h s = elim (Bool-cases risk.valid) [
    | inr v ↦ inl (rw v (refl, inr (_, refl, refl, refl)))
    | inl v ↦
        let same : open_with_risk L F T R a (ok risk) file
            ≡ open_checked L F T R a risk (check_override F R risk a.balance a.volume_override)
                file =
          ground (arith, v) in
        rw same (
          open_checked-IsOpening risk (check_override F R risk a.balance a.volume_override) h s v
            refl)
  ]

  -- An opening either writes nothing and returns no valid result, or the path is allowed, the size
  -- is valid, its override has passed, the position is the tradable one of the arguments and the
  -- checked volume, and the outcome is that of appending its opening to the journal.
  pub open_trade-IsOpening :
      IsRefused (open_trade L F T R path a file) ⊎ IsOpening (open_trade L F T R path a file)
  unfolding open_trade
  open_trade-IsOpening = elim (Bool-cases (is_prohibited path)) [
    | inl p ↦ inl (rw p (refl, inl (_, refl)))
    | inr p ↦ rw p (open_with_risk-IsOpening (calculate F T R (risk_arguments a)) p refl)
  ]
