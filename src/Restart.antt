-- ===== src/Restart.antt =====
-- src/mss/analysis/demo_broker_shadow_restart_reconciler.py: whether the broker's position and the
-- recovered paper position are the same after a restart.
pub mod Match
mod Examples
use mss_package.Common.{
  Bool, true, false, not, ◌||◌, Option, none, some, List, [], ◌∷◌, length, ltb, if◌then◌else◌,
}
use mss_package.Common.Float.{Float, nought}
use mss_package.Common.Int.{ℤ, pos, ltb_ℤ, leb_ℤ, eqb_ℤ}
use mss_package.Common.Text.{Text, codes, text_eq, is_empty, strip, upper}
use mss_package.VirtualPosition.Engine.{VirtualPosition, is_open}

pub record DemoBrokerPositionSnapshot (N : Type 0) : Type 0 where
  pub ticket : ℤ
  pub identifier : ℤ
  pub magic : ℤ
  pub symbol : Text
  pub direction : Text
  pub volume : N
  pub entry_price : N
  pub stop_loss : N
  pub take_profit : N
  pub open_broker_epoch : ℤ
  pub point : N
  pub volume_step : N

pub data RestartReason : Type 0 where
  invalid_pending_order_count mss_pending_order_present : RestartReason
  multiple_mss_broker_positions multiple_open_shadow_positions : RestartReason
  no_broker_or_shadow_exposure shadow_without_broker broker_without_shadow : RestartReason
  broker_magic_mismatch invalid_broker_position_metadata : RestartReason
  invalid_open_shadow_position symbol_mismatch direction_mismatch volume_mismatch : RestartReason
  entry_mismatch sl_mismatch tp_mismatch open_epoch_mismatch : RestartReason
  broker_shadow_restart_match_confirmed : RestartReason

pub record DemoBrokerShadowRestartResult : Type 0 where
  pub valid : Bool
  pub resume_allowed : Bool
  pub reason : RestartReason
  pub broker_ticket : ℤ
  pub broker_identifier : ℤ
  pub broker_symbol : Text
  pub broker_open_broker_epoch : ℤ
  pub shadow_position_id : Text
  pub shadow_symbol : Text
  pub real_order_send_allowed : Bool

-- `MAGIC`
abbrev pub magic_number : ℤ
magic_number = pos 920146

abbrev pub of_one {ℓ κ} : {A : Type ℓ} {B : Type κ} → (A → B) → B → List A → B
of_one f b [] = b
of_one f b (x ∷ []) = f x
of_one f b (x ∷ y ∷ xs) = b

module _ {N : Type 0} where
  -- The inner function `result`, in `reconcile` of the two lists.
  abbrev pub result :
      List (DemoBrokerPositionSnapshot N)
      → List (VirtualPosition N)
      → RestartReason
      → Bool
      → Bool
      → DemoBrokerShadowRestartResult
  result brokers shadows why is_valid resumes = record {
    valid = is_valid;
    resume_allowed = resumes;
    reason = why;
    broker_ticket = of_one (λ (b : DemoBrokerPositionSnapshot N). b.ticket) (pos 0) brokers;
    broker_identifier = of_one (λ (b : DemoBrokerPositionSnapshot N). b.identifier) (pos 0) brokers;
    broker_symbol = of_one (λ (b : DemoBrokerPositionSnapshot N). b.symbol) [] brokers;
    broker_open_broker_epoch =
        of_one (λ (b : DemoBrokerPositionSnapshot N). b.open_broker_epoch) (pos 0) brokers;
    shadow_position_id = of_one (λ (s : VirtualPosition N). s.position_id) [] shadows;
    shadow_symbol = of_one (λ (s : VirtualPosition N). s.symbol) [] shadows;
    real_order_send_allowed = false;
  }

module _ {N : Type 0} (F : Float N) where
  open F use {ratio, lt, le, sub, div, abs}

  -- The tests of the broker's position.
  unfoldable pub is_broker_invalid : DemoBrokerPositionSnapshot N → Bool
  is_broker_invalid b =
      leb_ℤ b.ticket (pos 0)
      || leb_ℤ b.identifier (pos 0)
      || is_empty (strip b.symbol)
      || not
          (text_eq (upper b.direction) (codes "BUY") || text_eq (upper b.direction) (codes "SELL"))
      || le b.volume (nought F)
      || le b.entry_price (nought F)
      || le b.stop_loss (nought F)
      || le b.take_profit (nought F)
      || leb_ℤ b.open_broker_epoch (pos 0)
      || le b.point (nought F)
      || le b.volume_step (nought F)

  -- The tests of the paper position.
  unfoldable pub is_shadow_invalid : VirtualPosition N → Bool
  is_shadow_invalid s =
      not s.valid
      || not (is_open s.status)
      || is_empty s.position_id
      || leb_ℤ s.open_broker_epoch (pos 0)

  -- The tests of one position against the other, by the reason of the first that fails.
  unfoldable pub mismatch : DemoBrokerPositionSnapshot N → VirtualPosition N → Option RestartReason
  mismatch b s =
      if not (eqb_ℤ b.magic magic_number)
      then some broker_magic_mismatch
      else if is_broker_invalid b
      then some invalid_broker_position_metadata
      else if is_shadow_invalid s
      then some invalid_open_shadow_position
      else if not (text_eq b.symbol s.symbol)
      then some symbol_mismatch
      else if not (text_eq (upper b.direction) (upper s.direction))
      then some direction_mismatch
      else if lt (div b.volume_step (ratio 2 1)) (abs (sub b.volume s.volume))
      then some volume_mismatch
      else if lt b.point (abs (sub b.entry_price s.entry_price))
      then some entry_mismatch
      else if lt b.point (abs (sub b.stop_loss s.stop_loss))
      then some sl_mismatch
      else if lt b.point (abs (sub b.take_profit s.take_profit))
      then some tp_mismatch
      else if not (eqb_ℤ b.open_broker_epoch s.open_broker_epoch)
      then some open_epoch_mismatch
      else none

  -- After the tests of the counts, when each list has at most one position.
  unfoldable pub compare_exposure :
      List (DemoBrokerPositionSnapshot N) → List (VirtualPosition N) → DemoBrokerShadowRestartResult
  compare_exposure [] [] = result {N = N} [] [] no_broker_or_shadow_exposure true false
  compare_exposure [] (s ∷ shadows) = result [] (s ∷ shadows) shadow_without_broker false false
  compare_exposure (b ∷ brokers) [] = result (b ∷ brokers) [] broker_without_shadow false false
  compare_exposure (b ∷ brokers) (s ∷ shadows) = elim (mismatch b s) [
    | some why ↦ result (b ∷ brokers) (s ∷ shadows) why false false
    | none ↦ result (b ∷ brokers) (s ∷ shadows) broker_shadow_restart_match_confirmed true true
  ]

  -- `DemoBrokerShadowRestartReconciler.reconcile`
  unfoldable pub reconcile :
      List (DemoBrokerPositionSnapshot N)
      → ℤ
      → List (VirtualPosition N)
      → DemoBrokerShadowRestartResult
  reconcile brokers pending shadows =
      if ltb_ℤ pending (pos 0)
      then result brokers shadows invalid_pending_order_count false false
      else if not (eqb_ℤ pending (pos 0))
      then result brokers shadows mss_pending_order_present false false
      else if ltb 1 (length brokers)
      then result brokers shadows multiple_mss_broker_positions false false
      else if ltb 1 (length shadows)
      then result brokers shadows multiple_open_shadow_positions false false
      else compare_exposure brokers shadows
