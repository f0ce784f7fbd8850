-- ===== src/Ingest/Pipeline/Decoded.antt =====
-- The side tables of decoded payloads: writeDecoded of src/ingest/pipeline.ts.
use hop_watch.Prelude.{
  ℕ, String, Bool, true, false, not, ◌&&◌, ◌||◌, Option, none, some, List, [], ◌∷◌, ◌++◌, str_eq,
  ◌==◌, if◌then◌else◌, is_some, length,
}
use hop_watch.Prelude.Int.{ℤ, pos, negsuc}
use hop_watch.Ingest.Pipeline.Envelope.{
  JsNumber, finite, not_finite, PositionFix, MapReport, TextBody, Trace, Neighbor, ParsedPayload,
  position, nodeinfo, telemetry, text, traceroute, sensor, keyverification, routing, neighborinfo,
  mapreport, raw, text_or_null,
}
use hop_watch.Ingest.Pipeline.Statements.{coalesce, upsert, insert_ignore, slice_text}
use hop_watch.Ingest.Pipeline.Side.{
  NodePosition, TelemetryRow, LinkEvent, NodeNeighbor, TextMessage, Source, gps_fix, map_report,
  Written,
}
use hop_watch.Ingest.Pipeline.Nodes.{NodeTables, update_node}
use hop_watch.Ingest.Pipeline.Identity.{apply_identity}

unfoldable pub write_position : Source → PositionFix → Written → Written
unfolding update_node
write_position s fix (n, t) = (
  update_node s.node_id (λ r. record r { last_position_at = some s.at }) n,
  record t {
    position_events =
        t.position_events
        ++ record {
          node_id = s.node_id;
          fix = fix;
          observed_at = s.at;
          source_packet_id = s.packet_id;
        }
          ∷ [];
    positions =
        upsert (λ r. r.node_id == s.node_id)
          (λ r. record r {
            latitude = fix.latitude;
            longitude = fix.longitude;
            altitude_m = fix.altitude_m;
            precision_bits = fix.precision_bits;
            last_updated_at = s.at;
          })
          (record {
            node_id = s.node_id;
            latitude = fix.latitude;
            longitude = fix.longitude;
            altitude_m = fix.altitude_m;
            precision_bits = fix.precision_bits;
            source = gps_fix;
            last_updated_at = s.at;
          })
          t.positions;
  },
)

unfoldable pub telemetry_of : Source → List (String × ℤ) → List TelemetryRow
telemetry_of s [] = []
telemetry_of s ((metric, value) ∷ rest) =
    record {
      observed_at = s.at;
      node_id = s.node_id;
      metric = metric;
      value = value;
      source_packet_id = s.packet_id;
    }
    ∷ telemetry_of s rest

-- `if (parsed.firmwareVersion)`.
unfoldable pub set_firmware : Option String → ℕ → NodeTables → NodeTables
unfolding update_node
set_firmware none id n = n
set_firmware (some v) id n =
    if str_eq v ""
    then n
    else update_node id (λ r. record r { firmware_version = some (slice_text 64 v) }) n

-- A text that is there and not blank.
is_named : Option String → Bool
is_named none = false
is_named (some s) = not (str_eq s "")

unfoldable pub set_radio_profile : Source → MapReport → NodeTables → NodeTables
unfolding is_named update_node
set_radio_profile s m n =
    if is_named m.region
      || is_named m.modem_preset
      || is_some m.has_default_channel
      || is_some m.num_online_local_nodes
    then update_node s.node_id
        (λ r. record r {
          region = coalesce m.region r.region;
          modem_preset = coalesce m.modem_preset r.modem_preset;
          has_default_channel = coalesce m.has_default_channel r.has_default_channel;
          reported_local_nodes = coalesce m.num_online_local_nodes r.reported_local_nodes;
          radio_profile_at = some s.at;
        })
        n
    else n

unfoldable pub set_coarse_position :
    Source → MapReport → Option ℤ → Option ℤ → List NodePosition → List NodePosition
set_coarse_position s m (some lat) (some lon) rows =
    upsert (λ r. r.node_id == s.node_id)
      (λ r. record r {
        latitude = finite lat;
        longitude = finite lon;
        altitude_m = coalesce m.altitude_m r.altitude_m;
        precision_bits = coalesce m.precision_bits r.precision_bits;
        source = map_report;
        last_updated_at = s.at;
      })
      (record {
        node_id = s.node_id;
        latitude = finite lat;
        longitude = finite lon;
        altitude_m = m.altitude_m;
        precision_bits = m.precision_bits;
        source = map_report;
        last_updated_at = s.at;
      })
      rows
set_coarse_position s m (some lat) none rows = rows
set_coarse_position s m none lon rows = rows

unfoldable pub write_map_report : Source → MapReport → Written → Written
unfolding set_firmware set_radio_profile set_coarse_position
write_map_report s m (n, t) = (
  set_radio_profile s m (
      set_firmware m.identity.firmware_version s.node_id
        (apply_identity s.node_id s.at m.identity n)),
  record t { positions = set_coarse_position s m m.latitude m.longitude t.positions },
)

abbrev pub broadcast : ℕ
broadcast = 0xffffffff

-- `toNode && toNode !== BROADCAST`.
unfoldable pub addressee : Option ℕ → Option ℕ
addressee none = none
addressee (some n) = if n == 0 || n == broadcast then none else some n

unfoldable pub last_hop : List ℕ → Option ℕ
last_hop [] = none
last_hop (x ∷ []) = some x
last_hop (x ∷ y ∷ r) = last_hop (y ∷ r)

unfoldable pub or_default : Option ℕ → ℕ → ℕ
or_default none b = b
or_default (some a) b = a

unfoldable pub trace_target : Source → Trace → ℕ
unfolding addressee last_hop or_default
trace_target s tr = or_default (coalesce (addressee s.to_node) (last_hop tr.route)) s.node_id

unfoldable pub link_event_of : Source → Trace → LinkEvent
unfolding trace_target
link_event_of s tr = record {
  from_node_id = s.node_id;
  to_node_id = trace_target s tr;
  observed_at = s.at;
  hop_count = length tr.route;
  route = tr.route;
  snr_towards = tr.snr_towards;
  snr_back = tr.snr_back;
  source_packet_id = s.packet_id;
}

unfoldable pub finite_part : JsNumber → Option ℤ
finite_part (finite v) = some v
finite_part not_finite = none

-- The loop over the neighbors of `reporter`.
unfoldable pub write_neighbors : ℕ → ℕ → List Neighbor → List NodeNeighbor → List NodeNeighbor
unfolding finite_part
write_neighbors reporter at [] rows = rows
write_neighbors reporter at (nb ∷ rest) rows = write_neighbors reporter at rest (
    if nb.node == 0 || nb.node == reporter
    then rows
    else upsert (λ r. r.node_id == reporter && r.neighbor_id == nb.node)
        (λ r. record r { snr = finite_part nb.snr; updated_at = at })
        (record {
          node_id = reporter;
          neighbor_id = nb.node;
          snr = finite_part nb.snr;
          updated_at = at;
        })
        rows)

-- `parsed.isReaction ? 1 : 0`.
is_set : Option Bool → Bool
is_set none = false
is_set (some b) = b

unfoldable pub text_message_of : Source → TextBody → TextMessage
unfolding addressee text_or_null is_set
text_message_of s b = record {
  observed_at = s.at;
  from_node_id = s.node_id;
  to_node_id = addressee s.to_node;
  channel_id = s.channel_id;
  channel_index = s.channel_index;
  body = slice_text 512 b.text;
  source_packet_id = s.packet_id;
  source_broker_id = text_or_null s.broker;
  source_topic = text_or_null s.topic;
  reply_to_packet_id = b.reply_to_packet_id;
  is_reaction = is_set b.is_reaction;
}

-- `errorCode < 0`.
unfoldable pub is_negative : ℤ → Bool
is_negative (pos n) = false
is_negative (negsuc n) = true

unfoldable pub write_decoded : Source → ParsedPayload → Written → Written
unfolding write_position telemetry_of write_map_report link_event_of write_neighbors text_message_of
    is_negative
write_decoded s (position fix) w = write_position s fix w
write_decoded s (telemetry metrics) (n, t) =
    (n, record t { telemetry_rows = t.telemetry_rows ++ telemetry_of s metrics })
write_decoded s (nodeinfo info) (n, t) = (apply_identity s.node_id s.at info n, t)
write_decoded s (mapreport m) w = write_map_report s m w
write_decoded s (keyverification nonce stage) (n, t) = if nonce == 0 then (n, t) else (
  n,
  record t {
    key_verifications =
        (insert_ignore (λ r. r.source_packet_id == s.packet_id)
          (record {
            nonce = nonce;
            from_node_id = s.node_id;
            to_node_id = s.to_node;
            stage = stage;
            observed_at = s.at;
            source_packet_id = s.packet_id;
          })
          t.key_verifications).0;
  },
)
write_decoded s (sensor kind body) (n, t) = (
  n,
  record t {
    sensor_events =
        (insert_ignore (λ r. r.source_packet_id == s.packet_id)
          (record {
            node_id = s.node_id;
            kind = kind;
            body = slice_text 512 body;
            channel_id = s.channel_id;
            observed_at = s.at;
            source_packet_id = s.packet_id;
          })
          t.sensor_events).0;
  },
)
write_decoded s (routing a) (n, t) =
    if a.request_id == 0 || is_negative a.error_code then (n, t) else (
      n,
      record t {
        routing_acks =
            (insert_ignore
              (λ r.
                r.answer.request_id == a.request_id
                && r.from_node_id == s.node_id
                && r.observed_at == s.at)
              (record {
                answer = a;
                from_node_id = s.node_id;
                to_node_id = s.to_node;
                observed_at = s.at;
                source_packet_id = s.packet_id;
              })
              t.routing_acks).0;
      },
    )
write_decoded s (traceroute tr) (n, t) =
    (n, record t { link_events = t.link_events ++ link_event_of s tr ∷ [] })
write_decoded s (neighborinfo node nbs) (n, t) = (
  n,
  record t {
    neighbors = write_neighbors (if node == 0 then s.node_id else node) s.at nbs t.neighbors;
  },
)
write_decoded s (text b) (n, t) = (
  n,
  record t {
    text_messages =
        (insert_ignore (λ r. r.source_packet_id == s.packet_id) (text_message_of s b)
          t.text_messages).0;
  },
)
write_decoded s raw w = w
