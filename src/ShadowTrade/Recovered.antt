-- ===== src/ShadowTrade/Recovered.antt =====
-- A paper trade and its recovery: what was opened is recovered, and what was closed is gone.
use mss_package.ShadowTrade.{position_in}
use mss_package.ShadowTrade.Closing.{unwritten_event}
use mss_package.ShadowTrade.Opening.{refused_event}
use mss_package.ShadowTrade.{Trade, event_of, position_arguments}
use mss_package.Sizing.{Terminal, Rounding}
use mss_package.ShadowTrade.Closing.{update_trade-IsClosing}
use mss_package.ShadowTrade.Opening.{open_trade-IsOpening}
use mss_package.ShadowTrade.Update.{update_trade, closed}
use mss_package.ShadowTrade.Open.{open_trade, opened}
use mss_package.ShadowTrade.{TradeArguments}
use mss_package.Common.{
  ℕ, ◌+◌, ◌≡◌, refl, ◌∙◌, sym, ap, true, false, none, some, [], arith, Result, ok, err, length, inl,
  inr,
}
use mss_package.Common.Dict.{insert, erase}
use mss_package.Common.Float.{Float}
use mss_package.Common.Int.{ℤ}
use mss_package.Common.Text.{Text, codes, text_eq_self, is_empty}
use mss_package.Journal.Append.{AppendError, append_event, sealed, body_of}
use mss_package.Journal.Append.Success.{ReadsBack, append_event-IsAppended, sealed-ShowsBody}
use mss_package.Journal.Chain.{File}
use mss_package.Journal.Json.{integer, floating, Fields, Library}
use mss_package.PositionRecovery.{
  recovery, conclude, recover, no_open_shadow_position, open_shadow_position_recovered,
}
use mss_package.PositionRecovery.Keyed.{replay-IsKeyed}
use mss_package.PositionRecovery.Laws.{recover-IsRead, recover-append}
use mss_package.ShadowTrade.{opened_payload, closed_payload}
use mss_package.Sizing.{ShadowRiskResult}
use mss_package.VirtualPosition.Engine.{VirtualPosition, OpenArguments, opened_position}
use mss_package.ShadowTrade.ReadBack.{apply_event-opened, apply_event-closed, none_left, one_left}

module _ {N : Type 0} (L : Library N) (F : Float N)
    (to_float_floating : (x : N) → L.to_float (floating x) ≡ ok x)
    (to_int_integer : (n : ℤ) → L.to_int (integer n) ≡ ok n) where
  opened_ok :
      (T : Terminal N) (R : Rounding N) (p : VirtualPosition N) (risk : ShadowRiskResult N)
      (w : Result AppendError (Fields N) × File) (event : Fields N)
      → event_of (opened L F T R p risk w) ≡ some event
      → (w ≡ (ok event, (opened L F T R p risk w).1))
        × (position_in (opened L F T R p risk w) ≡ some p)
  unfolding opened
  opened_ok T R p risk (err x, file) event j = absurd (cc j)
  opened_ok T R p risk (ok event', file) event j =
      (ap (λ x. (ok x, file)) (ground (arith, j)), refl)

  closed_ok :
      (T : Terminal N) (p : VirtualPosition N) (trigger : Text)
      (w : Result AppendError (Fields N) × File) (event : Fields N)
      → event_of (closed L F T p trigger w) ≡ some event
      → w ≡ (ok event, (closed L F T p trigger w).1)
  unfolding closed
  closed_ok T p trigger (err x, file) event j = absurd (cc j)
  closed_ok T p trigger (ok event', file) event j = ap (λ x. (ok x, file)) (ground (arith, j))

  recover-opened :
      (a : OpenArguments N) (risk : ShadowRiskResult N) (file file' : File) (n : ℕ)
      (event read : Fields N)
      → ReadsBack L event read
      → is_empty a.position_id ≡ false
      → append_event L
          (codes "POSITION_OPENED")
          a.position_id
          a.broker_epoch
          (opened_payload (opened_position F a) risk)
          file
        ≡ (ok event, file')
      → recover L F file ≡ ok (recovery true no_open_shadow_position n 0 none)
      → recover L F file'
        ≡ ok (recovery true open_shadow_position_recovered (n + 1) 1 (some (opened_position F a)))
  unfolding conclude insert
  recover-opened a risk file file' n event read back named e before =
      let i =
        append_event-IsAppended L (codes "POSITION_OPENED") a.position_id a.broker_epoch _ event
          file file' e in
      let body =
        body_of (i.count + 1) i.sha (codes "POSITION_OPENED") a.position_id a.broker_epoch
          (opened_payload (opened_position F a) risk) in
      let was =
        recover-IsRead L F file (recovery true no_open_shadow_position n 0 none) before refl in
      let (emptied, counted) =
        none_left L F to_float_floating to_int_integer n (length was.events) was.positions
          was.result in
      let shows =
        sealed-ShowsBody L (i.count + 1) i.sha (codes "POSITION_OPENED") a.position_id
          a.broker_epoch (opened_payload (opened_position F a) risk) in
      let back' : ReadsBack L (sealed L body) read = rw i.event_is at back in
      let step =
        apply_event-opened L F to_float_floating to_int_integer a risk (sealed L body) read
          was.positions named shows back' in
      rw i.file_is (
        recover-append L F file _ was body read _ i.count' i.sha' (rw i.file_is at i.verified')
          back' step
        ∙ (ap
              (λ d.
                ok
                  (conclude (length was.events + 1) (insert a.position_id (opened_position F a) d)))
              emptied
            ∙ ap
                (λ m. ok (
                  recovery true open_shadow_position_recovered (m + 1) 1
                    (some (opened_position F a))))
                (sym counted)))

  recover-closed :
      (q p : VirtualPosition N) (epoch : ℤ) (file file' : File) (n : ℕ) (event read : Fields N)
      → ReadsBack L event read
      → q.position_id ≡ p.position_id
      → append_event L (codes "POSITION_CLOSED") q.position_id epoch (closed_payload q) file
        ≡ (ok event, file')
      → recover L F file ≡ ok (recovery true open_shadow_position_recovered n 1 (some p))
      → recover L F file' ≡ ok (recovery true no_open_shadow_position (n + 1) 0 none)
  unfolding conclude erase
  recover-closed q p epoch file file' n event read back same e before =
      let i =
        append_event-IsAppended L (codes "POSITION_CLOSED") q.position_id epoch _ event file file'
          e in
      let body =
        body_of (i.count + 1) i.sha (codes "POSITION_CLOSED") q.position_id epoch
          (closed_payload q) in
      let was =
        recover-IsRead L F file (recovery true open_shadow_position_recovered n 1 (some p)) before
          refl in
      let (id, left, counted) =
        one_left L F to_float_floating to_int_integer n (length was.events) p was.positions
          was.result in
      let keyed : id ≡ p.position_id =
        (rw left at (replay-IsKeyed L F [] was.positions was.events tt was.replayed)).0 in
      let shows =
        sealed-ShowsBody L (i.count + 1) i.sha (codes "POSITION_CLOSED") q.position_id epoch
          (closed_payload q) in
      let back' : ReadsBack L (sealed L body) read = rw i.event_is at back in
      let step =
        apply_event-closed L F to_float_floating to_int_integer q.position_id epoch
          (closed_payload q) (sealed L body) read was.positions i.named shows back' in
      let erased : erase q.position_id was.positions ≡ [] =
        ap (erase q.position_id) left ∙ rw (keyed, same, text_eq_self p.position_id) refl in
      rw i.file_is (
        recover-append L F file _ was body read _ i.count' i.sha' (rw i.file_is at i.verified')
          back' step
        ∙ (ap (λ d. ok (conclude (length was.events + 1) d)) erased
            ∙ ap (λ m. ok (recovery true no_open_shadow_position (m + 1) 0 none)) (sym counted)))

  module _ (T : Terminal N) (R : Rounding N) (path : Text) (file : File) (n : ℕ)
      (event read : Fields N) (back : ReadsBack L event read) where
    -- Where a journal has no open position, and a trade is opened with an event that json reads
    -- back, the recovery from the journal after it gives that position.
    pub open_trade-recover :
        (a : TradeArguments N)
        → recover L F file ≡ ok (recovery true no_open_shadow_position n 0 none)
        → event_of (open_trade L F T R path a file) ≡ some event
        → (p : VirtualPosition N) × (position_in (open_trade L F T R path a file) ≡ some p)
          × (recover L F (open_trade L F T R path a file).1
              ≡ ok (recovery true open_shadow_position_recovered (n + 1) 1 (some p)))
    open_trade-recover a before j = elim (open_trade-IsOpening L F T R path a file) [
      | inl refused ↦ absurd (cc (refused_event L F T R path a file _ refused, j))
      | inr o ↦
          let b = position_arguments a o.used.normalized_volume in
          let w =
            append_event L (codes "POSITION_OPENED") a.position_id a.broker_epoch
              (opened_payload (opened_position F b) o.used) file in
          let (appended, shown) =
            opened_ok T R (opened_position F b) o.used w event (ap event_of (sym o.appended) ∙ j) in
          (
            opened_position F b,
            ap position_in o.appended ∙ shown,
            ap (λ (q : Trade N). recover L F q.1) o.appended
                ∙ recover-opened b o.used file _ n event read back o.sound.has_id appended before,
          )
    ]

    -- Where a recovery has given a position, and an update closes it with an event that json reads
    -- back, the recovery from the journal after it finds no position.
    pub update_trade-recover :
        (p : VirtualPosition N) (bid ask : N) (epoch : ℤ)
        → recover L F file ≡ ok (recovery true open_shadow_position_recovered n 1 (some p))
        → event_of (update_trade L F T path (some p) bid ask epoch file) ≡ some event
        → recover L F (update_trade L F T path (some p) bid ask epoch file).1
          ≡ ok (recovery true no_open_shadow_position (n + 1) 0 none)
    update_trade-recover p bid ask epoch before j =
        elim (update_trade-IsClosing L F T path bid ask epoch file p) [
          | inl held ↦ absurd (cc (unwritten_event L F T path bid ask epoch file _ held, j))
          | inr c ↦
              let w =
                append_event L (codes "POSITION_CLOSED") c.position.position_id epoch
                  (closed_payload c.position) file in
              let appended =
                closed_ok T c.position c.trigger w event (ap event_of (sym c.appended) ∙ j) in
              ap (λ (q : Trade N). recover L F q.1) c.appended
              ∙ recover-closed c.position p epoch file _ n event read back
                  (ap (λ (x : VirtualPosition N). x.position_id) c.closed_from.same) appended before
        ]
