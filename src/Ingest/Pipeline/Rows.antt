-- ===== src/Ingest/Pipeline/Rows.antt =====
-- The rows of the packets and the receptions that src/ingest/pipeline.ts stores.
use hop_watch.Prelude.{ℕ, String, Bool, Option, List}
use hop_watch.Prelude.Int.{ℤ}
use hop_watch.Meshtastic.Classify.{ReceptionClass}
use hop_watch.Ingest.Pipeline.Envelope.{NormalizedEnvelope, RxTransport}

pub data DecodeStatus : Type 0 where
  decoded encrypted malformed : DecodeStatus

-- `decode_error` is always NULL; `raw_json` spells the envelope.
pub record PacketRow : Type 0 where
  pub id : ℕ
  pub first_seen_at : ℕ
  pub first_reception_at : Option ℕ
  pub mesh_packet_id : ℕ
  pub from_node_id : ℕ
  pub to_node_id : Option ℕ
  pub dedup_bucket_no : ℕ
  pub channel_index : Option ℕ
  pub channel_id : Option String
  pub port_num : Option ℕ
  pub decode_status : DecodeStatus
  pub want_ack : Bool
  pub via_mqtt : Bool
  pub ok_to_mqtt : Bool
  pub raw_json : Option NormalizedEnvelope
  pub reception_count : ℕ
  pub source_broker_id : String
  pub decoded_side_written : Bool

pub record ReceptionRow : Type 0 where
  pub rx_time : ℕ
  pub received_at : ℕ
  pub packet_id : ℕ
  pub packet_first_seen_at : ℕ
  pub gateway_id : ℕ
  pub from_node_id : ℕ
  pub rx_rssi : Option ℤ
  pub rx_snr : Option ℤ
  pub hop_start : Option ℕ
  pub hop_limit : Option ℕ
  pub relay_node : Option ℕ
  pub cls : ReceptionClass
  pub raw_topic : String
  pub source_broker_id : String
  pub is_json : Bool
  pub ingest_lag_ms : Option ℤ
  pub transport : RxTransport

-- `next_id` is the AUTO_INCREMENT counter of the packets.
pub record PacketTables : Type 0 where
  pub packets : List PacketRow
  pub next_id : ℕ
  pub receptions : List ReceptionRow
