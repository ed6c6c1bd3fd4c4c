-- ===== src/ShadowTrade/ReadBack.antt =====
-- The events of a paper trade, as the recovery reads them back.
use mss_package.PositionRecovery.{ShadowPositionRecoveryResult}
use mss_package.Common.Int.{eqb_ℤ, eq_of_parts}
use mss_package.Common.{
  ℕ, ◌≡◌, refl, sym, ap, true, false, none, some, [], ◌∷◌, arith, ok, inl, inr, Bool-cases,
}
use mss_package.Common.Dict.{Dict, insert, erase}
use mss_package.Common.Float.{Float}
use mss_package.Common.Int.{ℤ, pos}
use mss_package.Common.Text.{Text, codes, text_eq, text_eq_self, is_empty}
use mss_package.Journal.Append.Success.{Keeps, ReadsBack, ShowsBody}
use mss_package.Journal.Json.{integer, floating, object, Fields, Library, as_object, get}
use mss_package.PositionRecovery.{
  recovery, conclude, no_open_shadow_position, open_shadow_position_recovered,
}
use mss_package.PositionRecovery.Events.{
  proceed, OpenedFields, read_fields, or_zero, open_with, apply_event,
}
use mss_package.ShadowTrade.{opened_payload}
use mss_package.Sizing.{ShadowRiskResult}
use mss_package.VirtualPosition.Engine.{VirtualPosition, OpenArguments, opened_position}

module _ {N : Type 0} (L : Library N) (F : Float N)
    (to_float_floating : (x : N) → L.to_float (floating x) ≡ ok x)
    (to_int_integer : (n : ℤ) → L.to_int (integer n) ≡ ok n) where
  or_zero_integer : (n : ℤ) → or_zero F (some (integer n)) ≡ integer n
  or_zero_integer n = elim (Bool-cases (eqb_ℤ n (pos 0))) [
    | inl q ↦ rw q (ap integer (sym (eq_of_parts n (pos 0) (ground (arith, q)))))
    | inr q ↦ rw q refl
  ]

  abbrev fields_of : OpenArguments N → OpenedFields N
  fields_of a =
      let p = opened_position F a in
      record {
        symbol = p.symbol;
        direction = p.direction;
        volume = p.volume;
        entry_price = p.entry_price;
        stop_loss = p.stop_loss;
        take_profit = p.take_profit;
        initial_risk_price = p.initial_risk_price;
        open_broker_epoch = p.open_broker_epoch;
        broker_position_ticket = p.broker_position_ticket;
        broker_position_identifier = p.broker_position_identifier;
      }

  module _ (a : OpenArguments N) (risk : ShadowRiskResult N) (fs : Fields N)
      (k : Keeps (opened_payload (opened_position F a) risk) fs) where
    read_fields-opened :
        (event : Fields N)
        → get (codes "broker_epoch") event ≡ some (integer a.broker_epoch)
        → read_fields L F event (object fs) ≡ ok (fields_of a)
    unfolding read_fields opened_payload get text_eq as_object
    read_fields-opened event e =
        let p = opened_position F a in
        rw
          (
            k.texts (codes "symbol") p.symbol refl,
            k.texts (codes "direction") p.direction refl,
            k.floats (codes "volume") p.volume refl,
            k.floats (codes "entry_price") p.entry_price refl,
            k.floats (codes "stop_loss") p.stop_loss refl,
            k.floats (codes "take_profit") p.take_profit refl,
            k.floats (codes "initial_risk_price") p.initial_risk_price refl,
            k.integers (codes "broker_position_ticket") p.broker_position_ticket refl,
            k.integers (codes "broker_position_identifier") p.broker_position_identifier refl,
            e,
          )
          (rw
            (
              to_float_floating p.volume,
              to_float_floating p.entry_price,
              to_float_floating p.stop_loss,
              to_float_floating p.take_profit,
              to_float_floating p.initial_risk_price,
              to_int_integer a.broker_epoch,
              or_zero_integer p.broker_position_ticket,
              or_zero_integer p.broker_position_identifier,
              to_int_integer p.broker_position_ticket,
              to_int_integer p.broker_position_identifier,
            )
            refl)

  -- The loop over an event that is read back.
  pub apply_event-opened :
      (a : OpenArguments N) (risk : ShadowRiskResult N) (event read : Fields N)
      (d : Dict (VirtualPosition N))
      → is_empty a.position_id ≡ false
      → ShowsBody
          (codes "POSITION_OPENED")
          a.position_id
          a.broker_epoch
          (opened_payload (opened_position F a) risk)
          event
      → ReadsBack L event read
      → apply_event L F d read ≡ proceed (insert a.position_id (opened_position F a) d)
  unfolding apply_event open_with
  apply_event-opened a risk event read d named shows back =
      let (fs, at_payload, keeps) = back.inside (codes "payload") _ shows.payload_of in
      let fields =
        read_fields-opened a risk fs keeps read
          (back.keeps.integers (codes "broker_epoch") a.broker_epoch shows.epoch_of) in
      rw
        (
          back.keeps.texts (codes "position_id") a.position_id shows.id_of,
          back.keeps.texts (codes "event_type") (codes "POSITION_OPENED") shows.type_of,
          named,
          text_eq_self (codes "POSITION_OPENED"),
          at_payload,
        )
        (rw fields refl)

  pub apply_event-closed :
      (id : Text) (epoch : ℤ) (payload event read : Fields N) (d : Dict (VirtualPosition N))
      → is_empty id ≡ false
      → ShowsBody (codes "POSITION_CLOSED") id epoch payload event
      → ReadsBack L event read
      → apply_event L F d read ≡ proceed (erase id d)
  unfolding apply_event text_eq
  apply_event-closed id epoch payload event read d named shows back =
      rw
        (
          back.keeps.texts (codes "position_id") id shows.id_of,
          back.keeps.texts (codes "event_type") (codes "POSITION_CLOSED") shows.type_of,
          named,
        )
        refl

  -- The dictionary of a recovery, from its result.
  pub none_left :
      (n m : ℕ) (d : Dict (VirtualPosition N))
      → recovery true no_open_shadow_position n 0 none ≡ conclude m d
      → (d ≡ []) × (n ≡ m)
  unfolding conclude
  none_left n m [] e = (refl, ap (λ (r : ShadowPositionRecoveryResult N). r.event_count) e)
  none_left n m ((id, p) ∷ []) e =
      absurd (cc (ap (λ (r : ShadowPositionRecoveryResult N). r.open_position_count) e))
  none_left n m (x ∷ y ∷ d) e = absurd (cc (ap (λ (r : ShadowPositionRecoveryResult N). r.valid) e))

  pub one_left :
      (n m : ℕ) (p : VirtualPosition N) (d : Dict (VirtualPosition N))
      → recovery true open_shadow_position_recovered n 1 (some p) ≡ conclude m d
      → (id : Text) × (d ≡ (id, p) ∷ []) × (n ≡ m)
  unfolding conclude
  one_left n m p [] e =
      absurd (cc (ap (λ (r : ShadowPositionRecoveryResult N). r.open_position_count) e))
  one_left n m p ((id, q) ∷ []) e = (
    id,
    ap (λ v. (id, v) ∷ [])
        (ground (arith, ap (λ (r : ShadowPositionRecoveryResult N). r.position) e)),
    ap (λ (r : ShadowPositionRecoveryResult N). r.event_count) e,
  )
  one_left n m p (x ∷ y ∷ d) e =
      absurd (cc (ap (λ (r : ShadowPositionRecoveryResult N). r.valid) e))
