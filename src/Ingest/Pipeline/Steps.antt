-- ===== src/Ingest/Pipeline/Steps.antt =====
-- The steps of applyEnvelope, src/ingest/pipeline.ts, on a packet that is stored: the claim of the side
-- tables, and what a new reception leaves. `now` is the wall clock, which is read once.
use hop_watch.Prelude.{
  ℕ, zero, ◌-◌, Bool, true, false, not, ◌&&◌, ◌||◌, Option, none, some, List, [], ◌∷◌, ◌++◌, str_eq,
  leb, ◌==◌, if◌then◌else◌, is_some,
}
use hop_watch.Prelude.Int.{pos}
use hop_watch.Meshtastic.Classify.{
  ReceptionClass, rf_direct, rf_direct_low_conf, rf_relayed, unknown, classify_reception,
}
use hop_watch.Ingest.Pipeline.Envelope.{
  JsNumber, finite, not_finite, PositionFix, Trace, ParsedPayload, position, traceroute,
  NormalizedEnvelope, IngestMeta, parsed_of, text_or_null,
}
use hop_watch.Ingest.Pipeline.Statements.{update_where, insert_ignore}
use hop_watch.Ingest.Pipeline.Nodes.{NodeTables, upsert_node, mark_gateway, update_node}
use hop_watch.Ingest.Pipeline.Links.{LinkRow, upsert_link}
use hop_watch.Ingest.Pipeline.Side.{Source}
use hop_watch.Ingest.Pipeline.Decoded.{write_decoded}
use hop_watch.Ingest.Pipeline.Arrival.{Arrival}
use hop_watch.Ingest.Pipeline.Packets.{bump_reception_count, claim_side, channel_index_of, port_of}
use hop_watch.Ingest.Pipeline.Traced.{record_traceroute, traced_nodes, stub_nodes}
use hop_watch.Ingest.Pipeline.Db.{IngestDb, LiveEvt, reception_heard, route_traced}

-- `!(latitude === 0 && longitude === 0)` of finite coordinates.
unfoldable pub is_real_fix : JsNumber → JsNumber → Bool
is_real_fix (finite (pos zero)) (finite (pos zero)) = false
is_real_fix (finite a) (finite b) = true
is_real_fix (finite a) not_finite = false
is_real_fix not_finite b = false

unfoldable pub fix_of : Option ParsedPayload → Option PositionFix
fix_of (some (position fix)) = some fix
fix_of _ = none

unfoldable pub trace_of : Option ParsedPayload → Option Trace
trace_of (some (traceroute tr)) = some tr
trace_of _ = none

-- The hops of a sample, by the class; `none` in the outer option where none is taken.
unfoldable pub sample_hops : ReceptionClass → Option ℕ → Option ℕ → Option (Option ℕ)
sample_hops rf_direct start limit = some (some 0)
sample_hops rf_relayed (some a) (some b) = some (if leb b a then some (a - b) else none)
sample_hops rf_relayed (some a) none = some none
sample_hops rf_relayed none limit = some none
sample_hops _ start limit = none

unfoldable pub feeds_link : ReceptionClass → Bool
feeds_link rf_direct = true
feeds_link rf_direct_low_conf = true
feeds_link rf_relayed = true
feeds_link unknown = true
feeds_link _ = false

unfoldable pub is_on_air : ReceptionClass → Bool
is_on_air rf_direct = true
is_on_air rf_direct_low_conf = true
is_on_air rf_relayed = true
is_on_air _ = false

unfoldable pub class_of : NormalizedEnvelope → ReceptionClass
class_of env =
    let p = env.packet in
    (classify_reception (record {
      gateway_id = env.gateway_id;
      from_node_id = p.from;
      rx_rssi = p.rx_rssi;
      rx_snr = p.rx_snr;
      hop_start = p.hop_start;
      hop_limit = p.hop_limit;
      relay_node = p.relay_node;
    })).cls

module _ (meta : IngestMeta) (env : NormalizedEnvelope) (now : ℕ) where
  unfoldable pub source_of : ℕ → Arrival → Source
  source_of id a =
      let p = env.packet in
      record {
        node_id = p.from;
        to_node = p.to;
        packet_id = id;
        at = a.rx_time;
        channel_id = text_or_null env.channel_id;
        channel_index = channel_index_of p;
        broker = meta.broker_id;
        topic = meta.raw_topic;
      }

  -- `if (p.decoded?.parsed)`: the claim, and `writeDecoded` for the one who wins it.
  unfoldable pub write_side : ℕ → Arrival → IngestDb → IngestDb
  unfolding parsed_of source_of
  write_side id a db = elim (parsed_of env.packet) [
    | none ↦ db
    | some parsed ↦
        let (t, won) = claim_side id a.first_seen_at db.tables in
        let (n, s) = write_decoded (source_of id a) parsed (db.nodes, db.side) in
        if won then record db { tables = t; nodes = n; side = s } else record db { tables = t }
  ]

  -- The text row takes the channel name that a later copy knows.
  unfoldable pub backfill_channel : ℕ → Bool → IngestDb → IngestDb
  backfill_channel id new db =
      let s = db.side in
      if new || str_eq env.channel_id "" then db else record db {
        side = record s {
          text_messages =
              update_where (λ r. r.source_packet_id == id && not (is_some r.channel_id))
                (λ r. record r { channel_id = some env.channel_id }) s.text_messages;
        };
      }

  -- Step 3b.
  unfoldable pub add_coverage : Arrival → IngestDb → IngestDb
  unfolding sample_hops fix_of is_real_fix class_of parsed_of
  add_coverage a db =
      let p = env.packet in
      elim (sample_hops (class_of env) p.hop_start p.hop_limit) [
        | none ↦ db
        | some hops ↦ elim (fix_of (parsed_of p)) [
          | none ↦ db
          | some fix ↦
              if is_real_fix fix.latitude fix.longitude
              then record db {
                coverage =
                    db.coverage
                    ++ record {
                      sample_time = a.rx_row_time;
                      latitude = fix.latitude;
                      longitude = fix.longitude;
                      gateway_id = env.gateway_id;
                      from_node_id = p.from;
                      rx_snr = p.rx_snr;
                      rx_rssi = p.rx_rssi;
                      channel_id = text_or_null env.channel_id;
                      hops = hops;
                    }
                      ∷ [];
              }
              else db
        ]
      ]

  -- Step 4.
  unfoldable pub touch_nodes : Arrival → Bool → NodeTables → NodeTables
  touch_nodes a new t =
      let from = env.packet.from in
      let gw = env.gateway_id in
      let t1 = upsert_node from a.rx_time new true t in
      let t2 = if gw == 0 || gw == from then t1 else upsert_node gw a.rx_time false false t1 in
      let t3 = mark_gateway gw meta.broker_id a.rx_time t2 in
      if gw == from then update_node from (λ r. record r { is_gateway = true }) t3 else t3

  -- Step 5.
  unfoldable pub add_link : Arrival → List LinkRow → List LinkRow
  unfolding feeds_link class_of
  add_link a rows =
      let p = env.packet in
      if feeds_link (class_of env)
      then upsert_link
          (record {
            gateway_id = env.gateway_id;
            node_id = p.from;
            cls = class_of env;
            rssi = p.rx_rssi;
            snr = p.rx_snr;
            relay = p.relay_node;
            at = a.rx_time;
          })
          rows
      else rows

  -- Step 7.
  unfoldable pub keep_payload : ℕ → Arrival → Bool → IngestDb → IngestDb
  keep_payload id a new db = elim env.packet.cipher_text [
    | none ↦ db
    | some bytes ↦
        if new || not (is_some env.packet.decoded)
        then record db {
          payloads =
              (insert_ignore (λ r. r.packet_id == id && r.stored_at == now)
                (record {
                  packet_id = id;
                  packet_first_seen_at = a.first_seen_at;
                  stored_at = now;
                  channel_id = text_or_null env.channel_id;
                  encrypted_payload = bytes;
                })
                db.payloads).0;
        }
        else db
  ]

  -- Step 8.
  unfoldable pub reception_event : ℕ → Arrival → List LiveEvt
  unfolding is_on_air class_of port_of
  reception_event id a =
      let p = env.packet in
      if is_on_air (class_of env)
      then record {
        at = now;
        body = reception_heard (record {
          packet_id = id;
          from = p.from;
          gateway = env.gateway_id;
          port = port_of p;
          broker = meta.broker_id;
          cls = class_of env;
          rssi = p.rx_rssi;
          snr = p.rx_snr;
          rx_time = a.rx_time;
          hop_start = p.hop_start;
          hop_limit = p.hop_limit;
          relay_node = p.relay_node;
          channel = p.channel;
        });
      }
        ∷ []
      else []

  -- Step 8b: what it writes, and the event.
  unfoldable pub trace_step : ℕ → Bool → IngestDb → IngestDb × List LiveEvt
  unfolding trace_of parsed_of
  trace_step id new db =
      let p = env.packet in
      elim (trace_of (parsed_of p)) [
        | none ↦ (db, [])
        | some tr ↦
            if new
            then (
              record db {
                topology = record_traceroute now (p.from ∷ tr.route) tr.snr_towards db.topology;
                nodes = stub_nodes now (traced_nodes p.from p.to tr) db.nodes;
              },
              record { at = now; body = route_traced id p.from p.to tr } ∷ [],
            )
            else (db, [])
      ]

  -- Steps 3 to 8b, for a new reception.
  unfoldable pub accept : ℕ → Arrival → Bool → IngestDb → IngestDb × List LiveEvt
  unfolding write_side add_coverage touch_nodes add_link keep_payload reception_event trace_step
  accept id a new db =
      let db1 =
        add_coverage a (record db { tables = bump_reception_count id a.first_seen_at db.tables }) in
      let db2 : IngestDb = record db1 {
        nodes = touch_nodes a new db1.nodes;
        links = add_link a db1.links;
      } in
      let db3 = keep_payload id a new (write_side id a db2) in
      let (db4, traced) = trace_step id new db3 in (db4, reception_event id a ++ traced)
