-- ===== src/OfflineClosure.antt =====
-- src/mss/analysis/demo_broker_offline_closure_reconciler.py: whether the broker's history shows
-- that a paper position has been closed while the program was not running.
mod Deals
pub mod Legacy
pub mod Pairs
pub mod Closed
mod Examples
use mss_package.Common.{
  Bool, true, false, not, ◌||◌, Option, none, some, List, [], ◌∷◌, map, any, Result, ok, err,
  if◌then◌else◌,
}
use mss_package.Common.Float.{Float, nought, sum}
use mss_package.Common.Int.{ℤ, pos, ltb_ℤ, leb_ℤ, eqb_ℤ}
use mss_package.Common.Text.{Text, codes, text_eq, is_empty, upper}
use mss_package.VirtualPosition.Engine.{VirtualPosition, is_open}
pub use Deals.{
  DemoBrokerDealSnapshot, ClosureReason, DemoBrokerOfflineClosureResult,
  broker_exposure_still_present, mss_pending_order_present, invalid_open_shadow_position,
  shadow_broker_position_identity_missing, broker_deal_history_missing,
  broker_position_identifier_mismatch, broker_shadow_symbol_mismatch, invalid_broker_deal_metadata,
  ambiguous_broker_position_lifecycle, broker_entry_deal_missing, ambiguous_broker_entry_lifecycle,
  broker_exit_deal_missing, ambiguous_multiple_exit_deals, broker_entry_magic_mismatch,
  broker_shadow_direction_mismatch, broker_shadow_entry_price_mismatch,
  broker_exit_direction_mismatch, partial_or_inconsistent_close_volume, invalid_broker_exit_price,
  broker_exit_epoch_not_after_open, broker_entry_epoch_mismatch, broker_exit_reason_undetermined,
  broker_offline_closure_confirmed, magic_number,
}
unfoldable pub use Deals.{is_entry, is_exit, is_other, filter}

module _ {N : Type 0} where
  -- The exit deal, after the entry deal.
  unfoldable pub take_one_exit :
      DemoBrokerDealSnapshot N
      → List (DemoBrokerDealSnapshot N)
      → Result ClosureReason (DemoBrokerDealSnapshot N × DemoBrokerDealSnapshot N)
  take_one_exit entry [] = err broker_exit_deal_missing
  take_one_exit entry (x ∷ []) = ok (entry, x)
  take_one_exit entry (x ∷ y ∷ xs) = err ambiguous_multiple_exit_deals

  unfoldable pub take_one_entry :
      List (DemoBrokerDealSnapshot N)
      → List (DemoBrokerDealSnapshot N)
      → Result ClosureReason (DemoBrokerDealSnapshot N × DemoBrokerDealSnapshot N)
  unfolding take_one_exit
  take_one_entry [] exits = err broker_entry_deal_missing
  take_one_entry (e ∷ []) exits = take_one_exit e exits
  take_one_entry (e ∷ e' ∷ es) exits = err ambiguous_broker_entry_lifecycle

  -- The entry and the exit deal of the history.
  unfoldable pub take_pair :
      List (DemoBrokerDealSnapshot N)
      → Result ClosureReason (DemoBrokerDealSnapshot N × DemoBrokerDealSnapshot N)
  take_pair deals =
      if any is_other deals
      then err ambiguous_broker_position_lifecycle
      else take_one_entry (filter is_entry deals) (filter is_exit deals)

  abbrev pub expected_exit_direction : VirtualPosition N → Text
  expected_exit_direction s =
      if text_eq (upper s.direction) (codes "BUY") then codes "SELL" else codes "BUY"

unfoldable pub exit_reason_of : Text → Option Text
exit_reason_of raw =
    let reason = upper raw in
    if text_eq reason (codes "SL")
    then some (codes "STOP_LOSS")
    else if text_eq reason (codes "TP")
    then some (codes "TAKE_PROFIT")
    else if not (is_empty reason)
    then some (codes "BROKER_MANUAL_OR_OTHER_EXIT")
    else none

module _ {N : Type 0} (F : Float N) where
  open F use {ratio, lt, le, add, sub, abs, is_finite}

  -- The inner function `blocked`.
  abbrev pub blocked : Option (VirtualPosition N) → ClosureReason → DemoBrokerOfflineClosureResult N
  blocked shadow why = record {
    valid = false;
    closure_confirmed = false;
    reason = why;
    symbol = elim shadow [ some s ↦ s.symbol | none ↦ [] ];
    broker_position_identifier = elim shadow [
      | some s ↦ s.broker_position_identifier
      | none ↦ pos 0
    ];
    shadow_position_id = elim shadow [ some s ↦ s.position_id | none ↦ [] ];
    exit_deal_ticket = pos 0;
    exit_price = nought F;
    exit_broker_epoch = pos 0;
    exit_reason = [];
    gross_profit = nought F;
    commission = nought F;
    swap = nought F;
    fee = nought F;
    net_result = nought F;
    entry_deal_ticket = pos 0;
    entry_price = nought F;
    entry_broker_epoch = pos 0;
    legacy_identity_recovered = false;
    real_order_send_allowed = false;
  }

  -- The tests of the paper position.
  unfoldable pub is_shadow_invalid : VirtualPosition N → Bool
  is_shadow_invalid s =
      not s.valid
      || not (is_open s.status)
      || is_empty s.position_id
      || leb_ℤ s.open_broker_epoch (pos 0)
      || not (is_finite s.volume)
      || not (is_finite s.entry_price)
      || not (is_finite s.stop_loss)
      || not (is_finite s.take_profit)
      || le s.volume (nought F)
      || le s.entry_price (nought F)

  unfoldable pub is_deal_invalid : DemoBrokerDealSnapshot N → Bool
  is_deal_invalid d =
      leb_ℤ d.ticket (pos 0)
      || leb_ℤ d.broker_epoch (pos 0)
      || not (is_finite d.volume)
      || not (is_finite d.price)
      || not (is_finite d.profit)
      || not (is_finite d.commission)
      || not (is_finite d.swap)
      || not (is_finite d.fee)

  -- The tests of the history as a whole, by the reason of the first that fails.
  unfoldable pub check_history :
      VirtualPosition N → List (DemoBrokerDealSnapshot N) → Option ClosureReason
  check_history s [] = some broker_deal_history_missing
  check_history s (d ∷ ds) =
      if any
        (λ (x : DemoBrokerDealSnapshot N).
          not (eqb_ℤ x.position_identifier s.broker_position_identifier))
        (d ∷ ds)
      then some broker_position_identifier_mismatch
      else if any (λ (x : DemoBrokerDealSnapshot N). not (text_eq x.symbol s.symbol)) (d ∷ ds)
      then some broker_shadow_symbol_mismatch
      else if any is_deal_invalid (d ∷ ds)
      then some invalid_broker_deal_metadata
      else none

  abbrev pub volume_tolerance : N
  volume_tolerance = ratio 1 1000000000

  -- The tests of the two deals against the paper position, by the reason of the first that fails.
  unfoldable pub check_pair :
      VirtualPosition N → DemoBrokerDealSnapshot N → DemoBrokerDealSnapshot N → Option ClosureReason
  check_pair s entry exit =
      if not (eqb_ℤ entry.magic magic_number)
      then some broker_entry_magic_mismatch
      else if not (text_eq (upper entry.direction) (upper s.direction))
      then some broker_shadow_direction_mismatch
      else if lt (ratio 1 1000000000000) (abs (sub entry.price s.entry_price))
      then some broker_shadow_entry_price_mismatch
      else if not (text_eq (upper exit.direction) (expected_exit_direction s))
      then some broker_exit_direction_mismatch
      else if lt volume_tolerance (abs (sub entry.volume s.volume))
          || lt volume_tolerance (abs (sub exit.volume entry.volume))
      then some partial_or_inconsistent_close_volume
      else if le exit.price (nought F)
      then some invalid_broker_exit_price
      else if leb_ℤ exit.broker_epoch s.open_broker_epoch
      then some broker_exit_epoch_not_after_open
      else if not (eqb_ℤ entry.broker_epoch s.open_broker_epoch)
      then some broker_entry_epoch_mismatch
      else none

  -- The result of a closure that is confirmed.
  abbrev pub confirmed :
      VirtualPosition N
      → List (DemoBrokerDealSnapshot N)
      → DemoBrokerDealSnapshot N
      → Text
      → DemoBrokerOfflineClosureResult N
  confirmed s deals exit why =
      let total_profit = sum F (map (λ (d : DemoBrokerDealSnapshot N). d.profit) deals) in
      let total_commission = sum F (map (λ (d : DemoBrokerDealSnapshot N). d.commission) deals) in
      let total_swap = sum F (map (λ (d : DemoBrokerDealSnapshot N). d.swap) deals) in
      let total_fee = sum F (map (λ (d : DemoBrokerDealSnapshot N). d.fee) deals) in
      record (blocked (some s) broker_offline_closure_confirmed) {
        valid = true;
        closure_confirmed = true;
        exit_deal_ticket = exit.ticket;
        exit_price = exit.price;
        exit_broker_epoch = exit.broker_epoch;
        exit_reason = why;
        gross_profit = total_profit;
        commission = total_commission;
        swap = total_swap;
        fee = total_fee;
        net_result = add (add (add total_profit total_commission) total_swap) total_fee;
      }

  unfoldable pub close_pair :
      VirtualPosition N
      → List (DemoBrokerDealSnapshot N)
      → DemoBrokerDealSnapshot N
      → DemoBrokerDealSnapshot N
      → DemoBrokerOfflineClosureResult N
  close_pair s deals entry exit = elim (check_pair s entry exit) [
    | some why ↦ blocked (some s) why
    | none ↦ elim (exit_reason_of exit.reason) [
      | none ↦ blocked (some s) broker_exit_reason_undetermined
      | some why ↦ confirmed s deals exit why
    ]
  ]

  unfoldable pub close_shadow :
      VirtualPosition N → List (DemoBrokerDealSnapshot N) → DemoBrokerOfflineClosureResult N
  close_shadow s deals =
      if is_shadow_invalid s
      then blocked (some s) invalid_open_shadow_position
      else if leb_ℤ s.broker_position_identifier (pos 0)
      then blocked (some s) shadow_broker_position_identity_missing
      else elim (check_history s deals) [
        | some why ↦ blocked (some s) why
        | none ↦ elim (take_pair deals) [
          | err why ↦ blocked (some s) why
          | ok (entry, exit) ↦ close_pair s deals entry exit
        ]
      ]

  -- `DemoBrokerOfflineClosureReconciler.reconcile`
  unfoldable pub reconcile :
      Option (VirtualPosition N)
      → ℤ
      → ℤ
      → List (DemoBrokerDealSnapshot N)
      → DemoBrokerOfflineClosureResult N
  reconcile shadow positions pending deals =
      if not (eqb_ℤ positions (pos 0))
      then blocked shadow broker_exposure_still_present
      else if not (eqb_ℤ pending (pos 0))
      then blocked shadow mss_pending_order_present
      else elim shadow [
        | none ↦ blocked none invalid_open_shadow_position
        | some s ↦ close_shadow s deals
      ]
