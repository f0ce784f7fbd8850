-- ===== src/Meshtastic/Classify/Tests.antt =====
-- Runs of the classifier, and the theorems at concrete headers.
use hop_watch.Prelude.{◌≡◌, refl, ◌↔◌, none, some}
use hop_watch.Prelude.Int.{pos, negsuc}
use hop_watch.Meshtastic.Classify.{
  rf_direct, rf_relayed, ReceptionFacts, classify_reception, RawHeader, facts_of,
}
use hop_watch.Meshtastic.Classify.Tree.{Means, classify_reception_lem}

abbrev direct_header : RawHeader
direct_header = record {
  gateway = 10;
  sender = 20;
  rssi_raw = negsuc 89;
  snr_raw = pos 6;
  hop_start_raw = 3;
  hop_limit_raw = some 3;
  relay_raw = none;
}

abbrev direct_facts : ReceptionFacts
direct_facts = record {
  gateway_id = 10;
  from_node_id = 20;
  rx_rssi = some (negsuc 89);
  rx_snr = none;
  hop_start = some 3;
  hop_limit = some 3;
  relay_node = none;
}

direct_run : (classify_reception (facts_of direct_header)).cls ≡ rf_direct
unfolding classify_reception facts_of
direct_run = refl

relayed_run : (classify_reception (record direct_facts { hop_limit = some 1 })).cls ≡ rf_relayed
unfolding classify_reception
relayed_run = refl

classify_reception_lem_example :
    ((classify_reception direct_facts).cls ≡ rf_direct) ↔ Means rf_direct direct_facts
classify_reception_lem_example = classify_reception_lem rf_direct direct_facts
