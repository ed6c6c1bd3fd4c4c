-- ===== src/OfflineClosure/Deals.antt =====
-- The data of src/mss/analysis/demo_broker_offline_closure_reconciler.py, and the kinds of deals.
use mss_package.Common.{Bool, not, ◌||◌, List, [], ◌∷◌, if◌then◌else◌}
use mss_package.Common.Int.{ℤ, pos}
use mss_package.Common.Text.{Text, codes, text_eq}

pub record DemoBrokerDealSnapshot (N : Type 0) : Type 0 where
  pub ticket : ℤ
  pub position_identifier : ℤ
  pub order_ticket : ℤ
  pub magic : ℤ
  pub comment : Text
  pub symbol : Text
  pub direction : Text
  pub entry_kind : Text
  pub reason : Text
  pub volume : N
  pub price : N
  pub broker_epoch : ℤ
  pub profit : N
  pub commission : N
  pub swap : N
  pub fee : N

pub data ClosureReason : Type 0 where
  broker_exposure_still_present mss_pending_order_present : ClosureReason
  invalid_open_shadow_position shadow_broker_position_identity_missing : ClosureReason
  broker_deal_history_missing broker_position_identifier_mismatch : ClosureReason
  broker_shadow_symbol_mismatch invalid_broker_deal_metadata : ClosureReason
  ambiguous_broker_position_lifecycle broker_entry_deal_missing : ClosureReason
  ambiguous_broker_entry_lifecycle broker_exit_deal_missing : ClosureReason
  ambiguous_multiple_exit_deals broker_entry_magic_mismatch : ClosureReason
  broker_shadow_direction_mismatch broker_shadow_entry_price_mismatch : ClosureReason
  broker_exit_direction_mismatch partial_or_inconsistent_close_volume : ClosureReason
  invalid_broker_exit_price broker_exit_epoch_not_after_open : ClosureReason
  broker_entry_epoch_mismatch broker_exit_reason_undetermined : ClosureReason
  broker_offline_closure_confirmed : ClosureReason
  invalid_legacy_open_shadow_position legacy_broker_deal_history_missing : ClosureReason
  invalid_legacy_broker_deal_metadata legacy_broker_entry_candidate_missing : ClosureReason
  ambiguous_legacy_broker_entry_candidate ambiguous_legacy_broker_lifecycle : ClosureReason
  ambiguous_legacy_broker_entry_lifecycle legacy_broker_exit_deal_missing : ClosureReason
  ambiguous_legacy_broker_exit_lifecycle legacy_broker_shadow_symbol_mismatch : ClosureReason
  legacy_broker_exit_direction_mismatch legacy_partial_or_inconsistent_close : ClosureReason
  legacy_broker_exit_epoch_not_after_entry legacy_broker_exit_reason_undetermined : ClosureReason
  broker_legacy_offline_closure_confirmed : ClosureReason

pub record DemoBrokerOfflineClosureResult (N : Type 0) : Type 0 where
  pub valid : Bool
  pub closure_confirmed : Bool
  pub reason : ClosureReason
  pub symbol : Text
  pub broker_position_identifier : ℤ
  pub shadow_position_id : Text
  pub exit_deal_ticket : ℤ
  pub exit_price : N
  pub exit_broker_epoch : ℤ
  pub exit_reason : Text
  pub gross_profit : N
  pub commission : N
  pub swap : N
  pub fee : N
  pub net_result : N
  pub entry_deal_ticket : ℤ
  pub entry_price : N
  pub entry_broker_epoch : ℤ
  pub legacy_identity_recovered : Bool
  pub real_order_send_allowed : Bool

-- `MAGIC`
abbrev pub magic_number : ℤ
magic_number = pos 920146

-- `tuple(x for x in xs if test(x))`
unfoldable pub filter {ℓ} : {A : Type ℓ} → (A → Bool) → List A → List A
filter test [] = []
filter test (x ∷ xs) = if test x then x ∷ filter test xs else filter test xs

module _ {N : Type 0} where
  unfoldable pub is_entry : DemoBrokerDealSnapshot N → Bool
  is_entry d = text_eq d.entry_kind (codes "IN")

  unfoldable pub is_exit : DemoBrokerDealSnapshot N → Bool
  is_exit d = text_eq d.entry_kind (codes "OUT") || text_eq d.entry_kind (codes "OUT_BY")

  abbrev pub is_other : DemoBrokerDealSnapshot N → Bool
  is_other d = not (is_entry d || is_exit d)
