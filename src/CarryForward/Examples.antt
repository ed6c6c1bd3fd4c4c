-- ===== src/CarryForward/Examples.antt =====
-- The purchase of the example of a paper trade, imported into a journal that is not there yet.
use mss_package.PositionRecovery.{recovery, open_shadow_position_recovered}
use mss_package.Recovery.Replay.{Escape, shadow_journal_read_failure}
use mss_package.Recovery.{ShadowPortfolioRiskRecoveryResult, failed}
use mss_package.Common.{
  ◌≡◌, refl, Bool, true, false, Option, none, some, is_some, List, [], ◌∷◌, if◌then◌else◌, Result,
  ok, err,
}
use mss_package.Common.Fixed.{Fixed, fixed, fixed_add, fixed_sub}
use mss_package.Common.Text.{Text, codes}
use mss_package.CarryForward.{
  CarryArguments, already_imported, predecessor_position_already_consumed,
}
use mss_package.CarryForward.Commit.{named, import_open_position}
use mss_package.CarryForward.Again.{ReadsDeep, import_again}
use mss_package.CarryForward.Committed.{IsCommitted}
use mss_package.CarryForward.Import.{Meanwhile}
use mss_package.CarryForward.{file_sha256, file_state}
use mss_package.CarryForward.Commit.{after_commit, same_state}
use mss_package.CarryForward.Events.{active_open_events, active_after, is_imported}
use mss_package.CarryForward.Import.{imported_payload, is_lifecycle_recovered, is_risk_recovered}
use mss_package.CarryForward.Source.{Source, preflight, take_payload}
use mss_package.Common.Dict.{lookup, insert, erase}
use mss_package.Common.Float.{sum}
use mss_package.Common.Int.{pos, ◌+ℤ◌, ◌-ℤ◌}
use mss_package.Common.Text.{strip, upper, lower, normalize, text_eq}
use mss_package.Journal.Append.{append_event, body_of}
use mss_package.Journal.Chain.{File, genesis_sha256, verify, check_chain, is_linked, is_hashed}
use mss_package.Journal.Json.{
  Json, string, object, Fields, Library, is_text, as_object, get, without, with_field,
}
use mss_package.PositionRecovery.{recover as recover_position}
use mss_package.PositionRecovery.Events.{
  read_fields, replay as replay_position, apply_event as apply_position,
}
use mss_package.Profiles.{profiles, directional_exposure, get as profile_of}
use mss_package.Recovery.{read_events, recover as recover_risk}
use mss_package.Recovery.Replay.{read_arguments, replay as replay_risk, apply_event as apply_risk}
use mss_package.RiskState.Position.{
  is_prohibited, are_prices_ordered, has_nonpositive, build_position,
}
use mss_package.RiskState.Snapshot.{snapshot}
use mss_package.RiskState.Snapshot.Sets.{has_duplicates}
use mss_package.Sizing.{sized}
use mss_package.ShadowTrade.{opened_payload}
use mss_package.ShadowTrade.Examples.{
  library as opened_library, file, opened_event, bought, bought_risk, same-Keeps,
}

abbrev euro : CarryArguments
euro = record {
  predecessor_journal_path = codes "shadow_data/old/eurusd.jsonl";
  current_journal_path = codes "shadow_data/new/eurusd.jsonl";
  expected_position_id = codes "P1";
  expected_symbol = codes "EURUSD";
}

abbrev first_line : List Text → Text
first_line [] = codes "empty"
first_line (line ∷ lines) = line

-- json tells an imported event from the others.
abbrev has_import : Fields Fixed → Bool
has_import fs = elim (get (codes "payload") fs) [
  | some (object payload) ↦ is_some (get (codes "continuity_import") payload)
  | _ ↦ false
]

abbrev encode : Json Fixed → Text
encode value = elim (as_object value) [
  | none ↦ []
  | some fs ↦
      if has_import fs
      then (if is_some (get (codes "event_sha256") fs)
          then codes "imported"
          else codes "imported body")
      else opened_library.canonical_json value
]

abbrev source : Source Fixed
source = record {
  event = opened_event;
  payload = opened_payload bought bought_risk;
  sha = codes "opened body";
  current_events = [];
}

abbrev imported_event : Fields Fixed
imported_event = with_field (codes "event_sha256") (string (codes "imported body")) (
    body_of 1 genesis_sha256 (codes "POSITION_OPENED") (codes "P1") (pos 1780000000)
      (imported_payload euro source (codes "opened")))

abbrev decode : Text → Option (Json Fixed)
decode line =
    if text_eq line (codes "imported")
    then some (object imported_event)
    else opened_library.loads line

abbrev library : Library Fixed
library = record opened_library { canonical_json = encode; loads = decode }

abbrev staged : File
staged = some (codes "imported" ∷ [])

-- Nothing else happens to the files.
abbrev quiet : Meanwhile
quiet = record {
  predecessor_then = file;
  current_then = none;
  replaced = true;
  predecessor_after = file;
  current_after = λ f. f;
}

abbrev staging : Text
staging = codes "shadow_data/new/eurusd.jsonl.carry_forward.0.tmp"

-- The current journal is replaced by the staged one.
euro_imported :
    (import_open_position library fixed first_line staging euro quiet file none).1 ≡ staged
unfolding import_open_position preflight recover_position recover_risk replay_risk replay_position
    apply_risk apply_position active_open_events active_after is_imported imported_payload
    is_lifecycle_recovered is_risk_recovered after_commit same_state file_sha256 file_state
    take_payload append_event verify check_chain is_linked is_hashed is_text as_object get without
    with_field body_of read_events read_fields read_arguments strip upper lower normalize text_eq
    lookup insert erase build_position is_prohibited are_prices_ordered has_nonpositive
    directional_exposure profiles snapshot has_duplicates sum fixed_add fixed_sub profile_of ◌+ℤ◌
    ◌-ℤ◌ opened_payload sized
euro_imported = refl

abbrev value_or :
    Result Escape (ShadowPortfolioRiskRecoveryResult Fixed)
    → ShadowPortfolioRiskRecoveryResult Fixed
value_or (ok r) = r
value_or (err e) = failed shadow_journal_read_failure 0 0 none

euro_committed :
    IsCommitted library fixed first_line staging euro quiet file none
      (import_open_position library fixed first_line staging euro quiet file none)
unfolding import_open_position preflight recover_position recover_risk replay_risk replay_position
    apply_risk apply_position active_open_events active_after is_imported imported_payload
    is_lifecycle_recovered is_risk_recovered after_commit same_state file_sha256 file_state
    take_payload append_event verify check_chain is_linked is_hashed is_text as_object get without
    with_field body_of read_events read_fields read_arguments strip upper lower normalize text_eq
    lookup insert erase build_position is_prohibited are_prices_ordered has_nonpositive
    directional_exposure profiles snapshot has_duplicates sum fixed_add fixed_sub profile_of ◌+ℤ◌
    ◌-ℤ◌ opened_payload sized
euro_committed = record {
  source = source;
  source_found = refl;
  is_new = refl;
  pristine = refl;
  broker_epoch = pos 1780000000;
  event = imported_event;
  staged = staged;
  appended = refl;
  lifecycle = recovery true open_shadow_position_recovered 1 1 (some bought);
  position_recovered = refl;
  position_expected = refl;
  risk = value_or (recover_risk library fixed staging staged);
  risk_recovered = refl;
  risk_expected = refl;
  predecessor_same = refl;
  current_same = refl;
  result = refl;
}

imported-ReadsDeep : ReadsDeep library imported_event imported_event
unfolding strip text_eq as_object get with_field body_of imported_payload opened_payload
imported-ReadsDeep = record {
  back = record {
    parses = refl;
    flush = refl;
    nonempty = refl;
    keeps = same-Keeps imported_event;
    inside = λ key fs h. (fs, h, same-Keeps fs);
  };
  deeper = λ key key' fs gs h h'. (fs, gs, h, h', same-Keeps gs);
}

import_again_example :
    import_open_position library fixed first_line staging euro quiet file staged ≡ (
      ok (
          named first_line euro quiet
            (codes "opened body")
            (file_sha256 first_line file)
            true
            already_imported
            predecessor_position_already_consumed
            []
            (file_sha256 first_line file)),
      staged,
    )
unfolding euro_committed with_field
import_again_example =
    import_again library fixed first_line staging euro quiet file none
      (import_open_position library fixed first_line staging euro quiet file none) euro_committed
      imported_event quiet imported-ReadsDeep refl
