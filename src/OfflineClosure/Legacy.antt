-- ===== src/OfflineClosure/Legacy.antt =====
-- `reconcile_legacy` of src/mss/analysis/demo_broker_offline_closure_reconciler.py: a position of an
-- older journal, which does not name the broker's position, is looked for in the history.
mod Single
pub mod Found
use mss_package.Common.{
  Bool, true, false, not, ◌||◌, ◌&&◌, Option, none, some, List, [], ◌∷◌, any, Result, ok, err,
  if◌then◌else◌,
}
use mss_package.Common.Float.{Float, nought}
use mss_package.Common.Int.{ℤ, pos, ltb_ℤ, leb_ℤ, eqb_ℤ, ◌-ℤ◌}
use mss_package.Common.Text.{Text, codes, text_eq, is_empty, upper}
use mss_package.VirtualPosition.Engine.{VirtualPosition, is_open}
use mss_package.OfflineClosure.Deals.{
  DemoBrokerDealSnapshot, ClosureReason, DemoBrokerOfflineClosureResult,
  broker_exposure_still_present, mss_pending_order_present, invalid_legacy_open_shadow_position,
  legacy_broker_deal_history_missing, invalid_legacy_broker_deal_metadata,
  legacy_broker_entry_candidate_missing, ambiguous_legacy_broker_entry_candidate,
  ambiguous_legacy_broker_lifecycle, ambiguous_legacy_broker_entry_lifecycle,
  legacy_broker_exit_deal_missing, ambiguous_legacy_broker_exit_lifecycle,
  legacy_broker_shadow_symbol_mismatch, legacy_broker_exit_direction_mismatch,
  legacy_partial_or_inconsistent_close, legacy_broker_exit_epoch_not_after_entry,
  legacy_broker_exit_reason_undetermined, broker_legacy_offline_closure_confirmed, magic_number,
  is_entry, is_exit, is_other, filter,
}
use mss_package.OfflineClosure.{
  blocked, is_deal_invalid, expected_exit_direction, volume_tolerance, exit_reason_of, confirmed,
}

module _ {N : Type 0} where
  -- The deals of the entry's position.
  unfoldable pub lifecycle_of :
      DemoBrokerDealSnapshot N → List (DemoBrokerDealSnapshot N) → List (DemoBrokerDealSnapshot N)
  lifecycle_of entry =
      filter
        (λ (d : DemoBrokerDealSnapshot N). eqb_ℤ d.position_identifier entry.position_identifier)

  -- The entry and the exit of a lifecycle, by the lists of its entries and exits.
  unfoldable pub legacy_pair :
      List (DemoBrokerDealSnapshot N)
      → List (DemoBrokerDealSnapshot N)
      → Result ClosureReason (DemoBrokerDealSnapshot N × DemoBrokerDealSnapshot N)
  legacy_pair [] exits = err ambiguous_legacy_broker_entry_lifecycle
  legacy_pair (e ∷ e' ∷ es) exits = err ambiguous_legacy_broker_entry_lifecycle
  legacy_pair (e ∷ []) [] = err legacy_broker_exit_deal_missing
  legacy_pair (e ∷ []) (x ∷ []) = ok (e, x)
  legacy_pair (e ∷ []) (x ∷ y ∷ xs) = err ambiguous_legacy_broker_exit_lifecycle

  unfoldable pub take_legacy_pair :
      List (DemoBrokerDealSnapshot N)
      → Result ClosureReason (DemoBrokerDealSnapshot N × DemoBrokerDealSnapshot N)
  take_legacy_pair lifecycle =
      if any is_other lifecycle
      then err ambiguous_legacy_broker_lifecycle
      else legacy_pair (filter is_entry lifecycle) (filter is_exit lifecycle)

module _ {N : Type 0} (F : Float N) where
  open F use {ratio, lt, le, mul, sub, abs, is_finite}

  -- The inner function `blocked`, which leaves the broker's position out.
  abbrev pub legacy_blocked :
      Option (VirtualPosition N) → ClosureReason → DemoBrokerOfflineClosureResult N
  legacy_blocked shadow why = record (blocked F shadow why) { broker_position_identifier = pos 0 }

  -- The tests of the paper position and of the size of a point.
  unfoldable pub is_legacy_shadow_invalid : VirtualPosition N → N → Bool
  is_legacy_shadow_invalid s point =
      not s.valid
      || not (is_open s.status)
      || is_empty s.position_id
      || not
          (text_eq (upper s.direction) (codes "BUY") || text_eq (upper s.direction) (codes "SELL"))
      || leb_ℤ s.open_broker_epoch (pos 0)
      || not (eqb_ℤ s.broker_position_identifier (pos 0))
      || not (eqb_ℤ s.broker_position_ticket (pos 0))
      || not (is_finite s.volume)
      || not (is_finite s.entry_price)
      || not (is_finite s.stop_loss)
      || not (is_finite s.take_profit)
      || not (is_finite point)
      || le s.volume (nought F)
      || le s.entry_price (nought F)
      || le point (nought F)

  unfoldable pub is_legacy_deal_invalid : DemoBrokerDealSnapshot N → Bool
  is_legacy_deal_invalid d = leb_ℤ d.position_identifier (pos 0) || is_deal_invalid F d

  -- Whether a deal can be the entry of the paper position.
  unfoldable pub is_candidate : VirtualPosition N → N → DemoBrokerDealSnapshot N → Bool
  is_candidate s point d =
      let delay = d.broker_epoch -ℤ s.open_broker_epoch in
      is_entry d
      && eqb_ℤ d.magic magic_number
      && text_eq d.symbol s.symbol
      && text_eq (upper d.direction) (upper s.direction)
      && le (abs (sub d.volume s.volume)) (volume_tolerance F)
      && leb_ℤ (pos 0) delay
      && leb_ℤ delay (pos 15)
      && le (abs (sub d.price s.entry_price)) (mul (ratio 10 1) point)

  -- The tests of the lifecycle against the paper position, by the reason of the first that fails.
  unfoldable pub check_legacy :
      VirtualPosition N
      → List (DemoBrokerDealSnapshot N)
      → DemoBrokerDealSnapshot N
      → DemoBrokerDealSnapshot N
      → Option ClosureReason
  check_legacy s lifecycle entry exit =
      if any (λ (x : DemoBrokerDealSnapshot N). not (text_eq x.symbol s.symbol)) lifecycle
      then some legacy_broker_shadow_symbol_mismatch
      else if not (text_eq (upper exit.direction) (expected_exit_direction s))
      then some legacy_broker_exit_direction_mismatch
      else if lt (volume_tolerance F) (abs (sub exit.volume entry.volume))
          || le exit.price (nought F)
      then some legacy_partial_or_inconsistent_close
      else if leb_ℤ exit.broker_epoch entry.broker_epoch
      then some legacy_broker_exit_epoch_not_after_entry
      else none

  -- The result of a closure that is confirmed, with the entry that has been found.
  abbrev pub legacy_confirmed :
      VirtualPosition N
      → List (DemoBrokerDealSnapshot N)
      → DemoBrokerDealSnapshot N
      → DemoBrokerDealSnapshot N
      → Text
      → DemoBrokerOfflineClosureResult N
  legacy_confirmed s lifecycle entry exit why = record (confirmed F s lifecycle exit why) {
    reason = broker_legacy_offline_closure_confirmed;
    broker_position_identifier = entry.position_identifier;
    entry_deal_ticket = entry.ticket;
    entry_price = entry.price;
    entry_broker_epoch = entry.broker_epoch;
    legacy_identity_recovered = true;
  }

  -- From the one candidate on. The code keeps the candidate where it has one entry.
  unfoldable pub close_candidate :
      VirtualPosition N
      → List (DemoBrokerDealSnapshot N)
      → DemoBrokerDealSnapshot N
      → DemoBrokerOfflineClosureResult N
  close_candidate s deals entry =
      let lifecycle = lifecycle_of entry deals in
      elim (take_legacy_pair lifecycle) [
        | err why ↦ legacy_blocked (some s) why
        | ok (single, exit) ↦ elim (check_legacy s lifecycle entry exit) [
          | some why ↦ legacy_blocked (some s) why
          | none ↦ elim (exit_reason_of exit.reason) [
            | none ↦ legacy_blocked (some s) legacy_broker_exit_reason_undetermined
            | some why ↦ legacy_confirmed s lifecycle entry exit why
          ]
        ]
      ]

  -- By the candidates: one candidate has one identifier, so the second test of the code adds nothing.
  unfoldable pub close_candidates :
      VirtualPosition N
      → List (DemoBrokerDealSnapshot N)
      → List (DemoBrokerDealSnapshot N)
      → DemoBrokerOfflineClosureResult N
  unfolding close_candidate
  close_candidates s deals [] = legacy_blocked (some s) legacy_broker_entry_candidate_missing
  close_candidates s deals (entry ∷ []) = close_candidate s deals entry
  close_candidates s deals (c ∷ c' ∷ cs) =
      legacy_blocked (some s) ambiguous_legacy_broker_entry_candidate

  unfoldable pub check_deals : List (DemoBrokerDealSnapshot N) → Option ClosureReason
  check_deals [] = some legacy_broker_deal_history_missing
  check_deals (d ∷ ds) =
      if any is_legacy_deal_invalid (d ∷ ds) then some invalid_legacy_broker_deal_metadata else none

  unfoldable pub close_legacy :
      VirtualPosition N → List (DemoBrokerDealSnapshot N) → N → DemoBrokerOfflineClosureResult N
  close_legacy s deals point =
      if is_legacy_shadow_invalid s point
      then legacy_blocked (some s) invalid_legacy_open_shadow_position
      else elim (check_deals deals) [
        | some why ↦ legacy_blocked (some s) why
        | none ↦ close_candidates s deals (filter (is_candidate s point) deals)
      ]

  -- `DemoBrokerOfflineClosureReconciler.reconcile_legacy`
  unfoldable pub reconcile_legacy :
      Option (VirtualPosition N)
      → ℤ
      → ℤ
      → List (DemoBrokerDealSnapshot N)
      → N
      → DemoBrokerOfflineClosureResult N
  reconcile_legacy shadow positions pending deals point =
      if not (eqb_ℤ positions (pos 0))
      then legacy_blocked shadow broker_exposure_still_present
      else if not (eqb_ℤ pending (pos 0))
      then legacy_blocked shadow mss_pending_order_present
      else elim shadow [
        | none ↦ legacy_blocked none invalid_legacy_open_shadow_position
        | some s ↦ close_legacy s deals point
      ]
