-- ===== src/Ingest/Pipeline/Side.antt =====
-- The side tables of decoded payloads that src/ingest/pipeline.ts writes. The texts of JSON columns are
-- the lists that they spell.
use hop_watch.Prelude.{ℕ, String, Bool, Option, List}
use hop_watch.Prelude.Int.{ℤ}
use hop_watch.Ingest.Pipeline.Envelope.{JsNumber, PositionFix, SensorKind, Stage, RoutingAnswer}
use hop_watch.Ingest.Pipeline.Nodes.{NodeTables}

pub record PositionEvent : Type 0 where
  pub node_id : ℕ
  pub fix : PositionFix
  pub observed_at : ℕ
  pub source_packet_id : ℕ

-- `source` is "position" or "map_report".
pub data PositionSource : Type 0 where
  gps_fix map_report : PositionSource

pub record NodePosition : Type 0 where
  pub node_id : ℕ
  pub latitude : JsNumber
  pub longitude : JsNumber
  pub altitude_m : Option ℤ
  pub precision_bits : Option ℕ
  pub source : PositionSource
  pub last_updated_at : ℕ

pub record TelemetryRow : Type 0 where
  pub observed_at : ℕ
  pub node_id : ℕ
  pub metric : String
  pub value : ℤ
  pub source_packet_id : ℕ

pub record KeyVerificationRow : Type 0 where
  pub nonce : ℕ
  pub from_node_id : ℕ
  pub to_node_id : Option ℕ
  pub stage : Stage
  pub observed_at : ℕ
  pub source_packet_id : ℕ

pub record SensorEvent : Type 0 where
  pub node_id : ℕ
  pub kind : SensorKind
  pub body : String
  pub channel_id : Option String
  pub observed_at : ℕ
  pub source_packet_id : ℕ

pub record RoutingAck : Type 0 where
  pub answer : RoutingAnswer
  pub from_node_id : ℕ
  pub to_node_id : Option ℕ
  pub observed_at : ℕ
  pub source_packet_id : ℕ

-- `direction` is always "forward".
pub record LinkEvent : Type 0 where
  pub from_node_id : ℕ
  pub to_node_id : ℕ
  pub observed_at : ℕ
  pub hop_count : ℕ
  pub route : List ℕ
  pub snr_towards : List ℤ
  pub snr_back : List ℤ
  pub source_packet_id : ℕ

pub record NodeNeighbor : Type 0 where
  pub node_id : ℕ
  pub neighbor_id : ℕ
  pub snr : Option ℤ
  pub updated_at : ℕ

pub record TextMessage : Type 0 where
  pub observed_at : ℕ
  pub from_node_id : ℕ
  pub to_node_id : Option ℕ
  pub channel_id : Option String
  pub channel_index : Option ℕ
  pub body : String
  pub source_packet_id : ℕ
  pub source_broker_id : Option String
  pub source_topic : Option String
  pub reply_to_packet_id : Option ℕ
  pub is_reaction : Bool

pub record SideTables : Type 0 where
  pub position_events : List PositionEvent
  pub positions : List NodePosition
  pub telemetry_rows : List TelemetryRow
  pub key_verifications : List KeyVerificationRow
  pub sensor_events : List SensorEvent
  pub routing_acks : List RoutingAck
  pub link_events : List LinkEvent
  pub neighbors : List NodeNeighbor
  pub text_messages : List TextMessage

-- The arguments of `writeDecoded` beside the payload.
pub record Source : Type 0 where
  pub node_id : ℕ
  pub to_node : Option ℕ
  pub packet_id : ℕ
  pub at : ℕ
  pub channel_id : Option String
  pub channel_index : Option ℕ
  pub broker : String
  pub topic : String

abbrev pub Written : Type 0
Written = NodeTables × SideTables
