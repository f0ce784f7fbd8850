-- ===== src/Ingest/Pipeline/Tests.antt =====
-- Deliveries to a small database, and the theorems at concrete values.
use hop_watch.Prelude.{
  ℕ, ◌+◌, ◌≡◌, refl, ◌↔◌, ◌⊎◌, true, false, Option, none, some, List, [], ◌∷◌, map, arith, length,
}
use hop_watch.Ingest.Pipeline.Newness.{apply_envelope-new, row_of}
use hop_watch.Ingest.Pipeline.Events.{routes, position_fixes, commit_chunk-WritesOnce}
use hop_watch.Ingest.Pipeline.Counted.{commit_chunk-IsCounted}
use hop_watch.Ingest.Pipeline.Tally.{IsCounted, IsKeyed}
use hop_watch.Ingest.Pipeline.Statements.{find_row}
use hop_watch.Ingest.Pipeline.Claimed.{IsClaimed}
use hop_watch.Ingest.Pipeline.Stored.{arrival_in, side_found, apply_envelope-IsStored}
use hop_watch.Ingest.Pipeline.Marked.{IsStored}
use hop_watch.Ingest.Pipeline.Steps.{source_of}
use hop_watch.Ingest.Pipeline.Once.{WritesOnce}
use hop_watch.Ingest.Pipeline.Rows.{PacketTables, PacketRow, malformed}
use hop_watch.Ingest.Pipeline.Redelivered.{apply_envelope_again}
use hop_watch.Stats.Window.{dedup_lookup_range, dedup_bucket, bucket_start}
use hop_watch.Stats.Topology.{path_edges}
use hop_watch.Ingest.Pipeline.Traced.{record_traceroute, traced_nodes, stub_nodes}
use hop_watch.Ingest.Pipeline.Links.{upsert_link}
use hop_watch.Ingest.Pipeline.Nodes.{upsert_node, mark_gateway, update_node}
use hop_watch.Ingest.Pipeline.Decoded.{write_decoded}
use hop_watch.Ingest.Pipeline.Receptions.{
  reception_values, is_rf, upgrade_receptions, insert_reception,
}
use hop_watch.Ingest.Pipeline.Packets.{
  packet_values, upsert_packet, claim_side, bump_reception_count, channel_index_of, port_of,
  has_same_key, merge_packet,
}
use hop_watch.Ingest.Pipeline.Arrival.{arrival, is_plausible, reported_ms, has_mesh_id, newest_copy}
use hop_watch.Ingest.Pipeline.Db.{IngestDb}
use hop_watch.Prelude.Int.{negsuc}
use hop_watch.Meshtastic.Classify.{classify_reception}
use hop_watch.Ingest.Pipeline.Envelope.{
  NormalizedPacket, NormalizedEnvelope, IngestMeta, mqtt, rf, ParsedPayload, traceroute,
  DecodedData, text_or_null, parsed_of,
}
use hop_watch.Ingest.Pipeline.Apply.{BatchItem, commit_chunk, apply_items, apply_envelope}

abbrev broker : IngestMeta
broker = record {
  broker_id = "home";
  raw_topic = "msh/2/e/LongFast";
  window_seconds = 600;
  transport = mqtt;
}

abbrev radio : IngestMeta
radio = record { broker_id = "node"; raw_topic = "rf"; window_seconds = 600; transport = rf }

abbrev route : ParsedPayload
route = traceroute (record { route = 8 ∷ []; snr_towards = []; snr_back = []; route_back = [] })

abbrev base_ms : ℕ
base_ms = 1600000000000

abbrev packet : ℕ → Option DecodedData → NormalizedPacket
packet t payload = record {
  mesh_packet_id = 77;
  from = 5;
  to = some 6;
  channel = some 0;
  channel_is_hash = false;
  hop_start = some 3;
  hop_limit = some 3;
  relay_node = none;
  rx_rssi = some (negsuc 89);
  rx_snr = none;
  rx_time_ms = some t;
  want_ack = false;
  via_mqtt = false;
  ok_to_mqtt = true;
  encrypted = none;
  cipher_text = none;
  decoded = payload;
}

-- Heard by a gateway, with a route and without a payload that could be read.
abbrev copy : ℕ → ℕ → Option DecodedData → NormalizedEnvelope
copy gateway t payload = record {
  gateway_id = gateway;
  channel_id = "LongFast";
  packet = packet t payload;
  from_json = false;
}

abbrev traced : Option DecodedData
traced = some (record { portnum = 70; parsed = some route })

abbrev empty : IngestDb
empty = record {
  tables = record { packets = []; next_id = 1; receptions = [] };
  coverage = [];
  payloads = [];
  nodes = record { nodes = []; gateways = []; identity_events = []; flags = [] };
  links = [];
  side = record {
    position_events = [];
    positions = [];
    telemetry_rows = [];
    key_verifications = [];
    sensor_events = [];
    routing_acks = [];
    link_events = [];
    neighbors = [];
    text_messages = [];
  };
  topology = record { mesh_links = []; trace_states = [] };
  live_events = [];
}

-- Applied ten minutes after the base.
abbrev item : IngestMeta → NormalizedEnvelope → BatchItem
item m e = record { now = base_ms + 600000; env = e; meta = m }

-- Three gateways, the first without the key, the last on the far side of a bucket boundary.
abbrev chunk : List BatchItem
chunk =
    item broker (copy 1 base_ms none)
    ∷ item broker (copy 2 base_ms traced)
    ∷ item broker (copy 3 (base_ms + 500000) traced)
    ∷ []

chunk_stored :
    let d = commit_chunk 0 true chunk empty in
    (map (λ r. r.reception_count) d.tables.packets ≡ 3 ∷ [])
    × (length d.tables.receptions ≡ 3)
    × (length d.side.link_events ≡ 1)
    × (length d.links ≡ 3)
unfolding commit_chunk apply_items apply_envelope arrival packet_values upsert_packet
    reception_values is_rf upgrade_receptions insert_reception claim_side write_decoded upsert_node
    mark_gateway update_node upsert_link record_traceroute traced_nodes stub_nodes
    classify_reception bump_reception_count text_or_null channel_index_of port_of path_edges
    is_plausible reported_ms parsed_of has_mesh_id dedup_lookup_range dedup_bucket bucket_start
    newest_copy
chunk_stored = (refl, refl, refl, refl)

-- A second delivery of an RF copy that took over an MQTT reception of another time is stored as a
-- reception of its own, and counted.
abbrev rf_copy : NormalizedEnvelope
rf_copy = copy 1 (base_ms + 1000) none

redelivered_rf :
    let d =
      commit_chunk 0 true (item broker (copy 1 base_ms none) ∷ item radio rf_copy ∷ []) empty in
    let d' = commit_chunk 0 true (record (item radio rf_copy) { now = base_ms + 700000 } ∷ []) d in
    (map (λ r. r.reception_count) d.tables.packets ≡ 1 ∷ [])
    × (map (λ r. r.reception_count) d'.tables.packets ≡ 2 ∷ [])
unfolding commit_chunk apply_items apply_envelope arrival packet_values upsert_packet
    reception_values is_rf upgrade_receptions insert_reception claim_side write_decoded upsert_node
    mark_gateway update_node upsert_link record_traceroute traced_nodes stub_nodes
    classify_reception bump_reception_count text_or_null channel_index_of port_of path_edges
    is_plausible reported_ms parsed_of has_mesh_id dedup_lookup_range dedup_bucket bucket_start
    newest_copy
redelivered_rf = (refl, refl)

empty-IsCounted : IsCounted empty.tables
empty-IsCounted = record { distinct = tt; below = tt; received_below = tt; counted = tt }

empty-IsKeyed : IsKeyed empty.tables
empty-IsKeyed = record { distinct = tt; below = tt }

commit_chunk-IsCounted_example : IsCounted (commit_chunk 0 true chunk empty).tables
commit_chunk-IsCounted_example = commit_chunk-IsCounted 0 true chunk empty empty-IsCounted

commit_chunk-WritesOnce_example :
    let d = commit_chunk 0 true chunk empty in
    WritesOnce routes d.tables d.side × WritesOnce position_fixes d.tables d.side
commit_chunk-WritesOnce_example =
    commit_chunk-WritesOnce 0 true chunk empty empty-IsKeyed
      (record { once = tt; sources_below = tt }) (record { once = tt; sources_below = tt })

copy-parsed : parsed_of (copy 2 base_ms traced).packet ≡ some route
unfolding parsed_of
copy-parsed = refl

apply_envelope-IsStored_example :
    let (db', evts, outcome) = apply_envelope broker (copy 2 base_ms traced) base_ms 0 empty in
    IsClaimed outcome.packet_id db'.tables
    × IsStored
        (source_of broker
          (copy 2 base_ms traced)
          base_ms
          outcome.packet_id
          (arrival_in broker (copy 2 base_ms traced) base_ms empty))
        route
        []
        (side_found broker (copy 2 base_ms traced) base_ms 0 empty)
        db'.side
apply_envelope-IsStored_example =
    apply_envelope-IsStored broker (copy 2 base_ms traced) base_ms copy-parsed 0 empty empty-IsKeyed

copy-has_mesh_id : has_mesh_id (copy 2 base_ms traced).packet ≡ true
unfolding has_mesh_id
copy-has_mesh_id = refl

copy-is_plausible : is_plausible base_ms (reported_ms (copy 2 base_ms traced).packet) ≡ true
unfolding is_plausible reported_ms
copy-is_plausible = refl

apply_envelope_again_example :
    let db1 = (apply_envelope broker (copy 2 base_ms traced) base_ms 0 empty).0 in
    let (db2, evts, outcome) =
      apply_envelope broker (copy 2 base_ms traced) (base_ms + 5000) 0 db1 in
    (outcome.new_reception ≡ false) × (evts ≡ []) × (db2.tables.receptions ≡ db1.tables.receptions)
apply_envelope_again_example =
    apply_envelope_again broker (copy 2 base_ms traced) refl base_ms (base_ms + 5000) 0 0 empty
      (omega arith) copy-has_mesh_id copy-is_plausible (omega arith)

abbrev row : PacketRow
row = record {
  id = 1;
  first_seen_at = base_ms;
  first_reception_at = some base_ms;
  mesh_packet_id = 77;
  from_node_id = 5;
  to_node_id = some 6;
  dedup_bucket_no = 2666666;
  channel_index = some 0;
  channel_id = some "LongFast";
  port_num = none;
  decode_status = malformed;
  want_ack = false;
  via_mqtt = false;
  ok_to_mqtt = true;
  raw_json = none;
  reception_count = 0;
  source_broker_id = "home";
  decoded_side_written = false;
}

abbrev two : PacketTables
two = record { packets = row ∷ []; next_id = 2; receptions = [] }

-- A copy that brings nothing new, where the driver counts the row that was found.
same_copy : (upsert_packet 1 row two).2 ≡ 1
unfolding upsert_packet
same_copy = refl

-- The database after the first copy, and a second gateway's copy that brings nothing new.
abbrev one : IngestDb
one = record empty { tables = two }

apply_envelope-new_example :
    let outcome = (apply_envelope broker (copy 2 base_ms none) base_ms 1 one).2 in
    (outcome.new_packet ≡ true) ↔ (
      (outcome.new_reception ≡ true)
      × ((find_row (has_same_key (row_of broker (copy 2 base_ms none) base_ms one)) (row ∷ [])
            ≡ none)
          ⊎ ((◌≡◌ {A = ℕ} 1 1)
              × ((r : PacketRow) × (find_row
                      (has_same_key (row_of broker (copy 2 base_ms none) base_ms one))
                      (row ∷ [])
                    ≡ some r)
                  × (merge_packet (row_of broker (copy 2 base_ms none) base_ms one) r ≡ r)))))
apply_envelope-new_example = apply_envelope-new broker (copy 2 base_ms none) base_ms 1 one
