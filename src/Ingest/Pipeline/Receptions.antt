-- ===== src/Ingest/Pipeline/Receptions.antt =====
-- The statements of src/ingest/pipeline.ts on the receptions.
use hop_watch.Prelude.{ℕ, Bool, true, false, not, ◌&&◌, Option, none, some, ◌==◌, if◌then◌else◌}
use hop_watch.Prelude.Int.{ℤ, sub_ℕ}
use hop_watch.Meshtastic.Classify.{ReceptionClass}
use hop_watch.Ingest.Pipeline.Envelope.{
  NormalizedPacket, NormalizedEnvelope, IngestMeta, RxTransport, mqtt, rf,
}
use hop_watch.Ingest.Pipeline.Statements.{update_where, count_where, insert_ignore}
use hop_watch.Ingest.Pipeline.Rows.{ReceptionRow, PacketTables}
use hop_watch.Ingest.Pipeline.Arrival.{Arrival, reported_ms}

-- `ingest_lag_ms`.
unfoldable pub lag_of : ℕ → NormalizedPacket → Arrival → Option ℤ
unfolding reported_ms
lag_of now p a = if a.clock_ok then some (sub_ℕ now (reported_ms p)) else none

unfoldable pub reception_values :
    ℕ → ℕ → IngestMeta → NormalizedEnvelope → Arrival → ReceptionClass → ReceptionRow
unfolding lag_of
reception_values id now meta env a cls =
    let p = env.packet in
    record {
      rx_time = a.rx_row_time;
      received_at = now;
      packet_id = id;
      packet_first_seen_at = a.first_seen_at;
      gateway_id = env.gateway_id;
      from_node_id = p.from;
      rx_rssi = p.rx_rssi;
      rx_snr = p.rx_snr;
      hop_start = p.hop_start;
      hop_limit = p.hop_limit;
      relay_node = p.relay_node;
      cls = cls;
      raw_topic = meta.raw_topic;
      source_broker_id = meta.broker_id;
      is_json = env.from_json;
      ingest_lag_ms = lag_of now p a;
      transport = meta.transport;
    }

unfoldable pub is_rf : RxTransport → Bool
is_rf rf = true
is_rf mqtt = false

-- The rows that an RF copy takes over.
unfoldable pub is_upgradable : ReceptionRow → ReceptionRow → Bool
unfolding is_rf
is_upgradable v r =
    r.packet_id == v.packet_id
    && r.packet_first_seen_at == v.packet_first_seen_at
    && r.gateway_id == v.gateway_id
    && not (is_rf r.transport)

unfoldable pub take_over : ReceptionRow → ReceptionRow → ReceptionRow
take_over v r = record r {
  transport = rf;
  rx_rssi = v.rx_rssi;
  rx_snr = v.rx_snr;
  hop_start = v.hop_start;
  hop_limit = v.hop_limit;
  relay_node = v.relay_node;
  cls = v.cls;
}

-- The update of the second step, and `affectedRows`.
unfoldable pub upgrade_receptions : ReceptionRow → PacketTables → PacketTables × ℕ
unfolding is_upgradable take_over
upgrade_receptions v t = (
  record t { receptions = update_where (is_upgradable v) (take_over v) t.receptions },
  count_where (is_upgradable v) t.receptions,
)

-- The unique key of the receptions.
unfoldable pub same_reception : ReceptionRow → ReceptionRow → Bool
same_reception v r =
    r.packet_id == v.packet_id && r.gateway_id == v.gateway_id && r.rx_time == v.rx_time

unfoldable pub insert_reception : ReceptionRow → PacketTables → PacketTables × Bool
unfolding same_reception
insert_reception v t =
    let (rows, done) = insert_ignore (same_reception v) v t.receptions in
    (record t { receptions = rows }, done)
