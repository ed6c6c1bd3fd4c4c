-- ===== src/OfflineClosure/Examples.antt =====
-- A purchase that the broker has stopped out while the program was not running.
use mss_package.Common.{◌≡◌, ◌↔◌, refl, true, List, [], ◌∷◌, some}
use mss_package.Common.Fixed.{Fixed, fix, num, fixed, fixed_add, fixed_sub}
use mss_package.Common.Float.{sum}
use mss_package.Common.Int.{ℤ, pos, negsuc, ◌+ℤ◌, ◌-ℤ◌}
use mss_package.Common.Text.{Text, codes, text_eq, upper}
use mss_package.VirtualPosition.Engine.{VirtualPosition, opened_position}
use mss_package.OfflineClosure.{
  DemoBrokerDealSnapshot, DemoBrokerOfflineClosureResult, magic_number, is_entry, is_exit, filter,
  ambiguous_multiple_exit_deals, is_shadow_invalid, is_deal_invalid, check_history, take_one_exit,
  take_one_entry, take_pair, check_pair, exit_reason_of, close_pair, close_shadow, reconcile,
}
use mss_package.OfflineClosure.Legacy.{
  lifecycle_of, legacy_pair, take_legacy_pair, is_legacy_shadow_invalid, is_legacy_deal_invalid,
  is_candidate, check_legacy, close_candidate, close_candidates, check_deals, close_legacy,
  reconcile_legacy,
}
use mss_package.OfflineClosure.Legacy.Found.{IsFound, reconcile_legacy-IsFound}
use mss_package.OfflineClosure.Closed.{IsClosure, closure_confirmed_iff}

abbrev shadow : VirtualPosition Fixed
shadow = opened_position fixed (record {
  position_id = codes "P1";
  symbol = codes "EURUSD";
  direction = codes "BUY";
  volume = fix 100;
  entry_price = fix 1100;
  stop_loss = fix 1090;
  take_profit = fix 1120;
  broker_epoch = pos 1780000000;
  broker_position_ticket = pos 7;
  broker_position_identifier = pos 7;
})

abbrev deal : Text → Text → Text → ℤ → Fixed → Fixed → DemoBrokerDealSnapshot Fixed
deal kind direction reason epoch price profit = record {
  ticket = pos 41;
  position_identifier = pos 7;
  order_ticket = pos 40;
  magic = magic_number;
  comment = [];
  symbol = codes "EURUSD";
  direction = direction;
  entry_kind = kind;
  reason = reason;
  volume = fix 100;
  price = price;
  broker_epoch = epoch;
  profit = profit;
  commission = fix 0;
  swap = fix 0;
  fee = fix 0;
}

abbrev entry : DemoBrokerDealSnapshot Fixed
entry = deal (codes "IN") (codes "BUY") (codes "EXPERT") (pos 1780000000) (fix 1100) (fix 0)

abbrev exit : DemoBrokerDealSnapshot Fixed
exit = deal (codes "OUT") (codes "SELL") (codes "sl") (pos 1780000900) (fix 1090) (num (negsuc 999))

abbrev result : List (DemoBrokerDealSnapshot Fixed) → DemoBrokerOfflineClosureResult Fixed
result = reconcile fixed (some shadow) (pos 0) (pos 0)

stopped_out : (result (exit ∷ entry ∷ [])).closure_confirmed ≡ true
unfolding reconcile close_shadow close_pair check_pair check_history take_pair take_one_entry
    take_one_exit filter is_entry is_exit is_shadow_invalid is_deal_invalid exit_reason_of text_eq
    upper sum fixed_add fixed_sub ◌+ℤ◌ ◌-ℤ◌
stopped_out = refl

stopped_why : (result (exit ∷ entry ∷ [])).exit_reason ≡ codes "STOP_LOSS"
unfolding reconcile close_shadow close_pair check_pair check_history take_pair take_one_entry
    take_one_exit filter is_entry is_exit is_shadow_invalid is_deal_invalid exit_reason_of text_eq
    upper sum fixed_add fixed_sub ◌+ℤ◌ ◌-ℤ◌
stopped_why = refl

two_exits : (result (exit ∷ entry ∷ exit ∷ [])).reason ≡ ambiguous_multiple_exit_deals
unfolding reconcile close_shadow check_history take_pair take_one_entry take_one_exit filter
    is_entry is_exit is_shadow_invalid is_deal_invalid text_eq
two_exits = refl

closure_confirmed_iff_example :
    ((result (exit ∷ entry ∷ [])).closure_confirmed ≡ true)
    ↔ ((pos 0 ≡ pos 0) × (pos 0 ≡ pos 0) × IsClosure fixed (some shadow) (exit ∷ entry ∷ []))
closure_confirmed_iff_example =
    closure_confirmed_iff fixed (some shadow) (pos 0) (pos 0) (exit ∷ entry ∷ [])

-- A position of an older journal, whose entry was filled 5 seconds later.
abbrev legacy_shadow : VirtualPosition Fixed
legacy_shadow = record shadow {
  open_broker_epoch = pos 1779999995;
  broker_position_ticket = pos 0;
  broker_position_identifier = pos 0;
}

abbrev legacy_result : DemoBrokerOfflineClosureResult Fixed
legacy_result =
    reconcile_legacy fixed (some legacy_shadow) (pos 0) (pos 0) (exit ∷ entry ∷ []) (fix 1)

found : legacy_result.closure_confirmed ≡ true
unfolding reconcile_legacy close_legacy close_candidates close_candidate check_legacy check_deals
    take_legacy_pair legacy_pair lifecycle_of is_candidate is_legacy_shadow_invalid
    is_legacy_deal_invalid filter is_entry is_exit is_deal_invalid exit_reason_of text_eq upper sum
    fixed_add fixed_sub ◌+ℤ◌ ◌-ℤ◌
found = refl

reconcile_legacy-IsFound_example :
    (pos 0 ≡ pos 0)
    × (pos 0 ≡ pos 0)
    × (s : VirtualPosition Fixed) × (some legacy_shadow ≡ some s)
    × IsFound fixed s (exit ∷ entry ∷ []) (fix 1) legacy_result
reconcile_legacy-IsFound_example =
    reconcile_legacy-IsFound fixed (some legacy_shadow) (pos 0) (pos 0) (exit ∷ entry ∷ []) (fix 1)
      found
