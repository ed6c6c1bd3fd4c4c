-- ===== src/Journal/Transaction/Examples.antt =====
-- Two processes: the second one finds the journal busy, and the first one dies after its write.
use mss_package.Common.{◌≡◌, refl, none, List, [], ◌∷◌}
use mss_package.Common.Fixed.{Fixed}
use mss_package.Common.Int.{pos}
use mss_package.Common.Text.{codes}
use mss_package.Journal.Chain.{verify, check_chain}
use mss_package.Journal.Json.{end}
use mss_package.Journal.Transaction.{
  Request, ProcessAction, call, go_on, die, run, start, enter, prepare_body, go_on_in, die_in,
}
use mss_package.Journal.Transaction.Serial.{Serial, run-Serial}
use mss_package.Recovery.Examples.{stand_in}

abbrev opening : Request Fixed
opening = record {
  event_type = codes "POSITION_OPENED";
  position_id = codes "P1";
  broker_epoch = pos 1780000000;
  payload = end;
}

abbrev schedule : List (ProcessAction Fixed)
schedule = call 1 opening ∷ go_on ∷ call 2 opening ∷ go_on ∷ die ∷ []

free : (run stand_in schedule (start stand_in none)).holder ≡ none
unfolding run enter prepare_body go_on_in die_in verify check_chain
free = refl

run-Serial_example :
    Serial stand_in none
      (run stand_in schedule (start stand_in none)).log
      (run stand_in schedule (start stand_in none)).file
run-Serial_example = run-Serial stand_in none schedule free
