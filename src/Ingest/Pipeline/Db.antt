-- ===== src/Ingest/Pipeline/Db.antt =====
-- The database that src/ingest/pipeline.ts writes to, and the live events, which are stored last.
use hop_watch.Prelude.{ℕ, String, Option, List, [], ◌∷◌, ◌++◌}
use hop_watch.Prelude.Int.{ℤ}
use hop_watch.Meshtastic.Classify.{ReceptionClass}
use hop_watch.Ingest.Pipeline.Envelope.{JsNumber, Trace}
use hop_watch.Ingest.Pipeline.Nodes.{NodeTables}
use hop_watch.Ingest.Pipeline.Links.{LinkRow}
use hop_watch.Ingest.Pipeline.Side.{SideTables}
use hop_watch.Ingest.Pipeline.Rows.{PacketTables}
use hop_watch.Ingest.Pipeline.Traced.{TopologyTables}

pub record CoverageSample : Type 0 where
  pub sample_time : ℕ
  pub latitude : JsNumber
  pub longitude : JsNumber
  pub gateway_id : ℕ
  pub from_node_id : ℕ
  pub rx_snr : Option ℤ
  pub rx_rssi : Option ℤ
  pub channel_id : Option String
  pub hops : Option ℕ

pub record PayloadRow : Type 0 where
  pub packet_id : ℕ
  pub packet_first_seen_at : ℕ
  pub stored_at : ℕ
  pub channel_id : Option String
  pub encrypted_payload : List ℕ

pub record ReceptionNews : Type 0 where
  pub packet_id : ℕ
  pub from : ℕ
  pub gateway : ℕ
  pub port : Option ℕ
  pub broker : String
  pub cls : ReceptionClass
  pub rssi : Option ℤ
  pub snr : Option ℤ
  pub rx_time : ℕ
  pub hop_start : Option ℕ
  pub hop_limit : Option ℕ
  pub relay_node : Option ℕ
  pub channel : Option ℕ

-- The payloads of the two event types.
pub data LiveBody : Type 0 where
  reception_heard : ReceptionNews → LiveBody
  route_traced : ℕ → ℕ → Option ℕ → Trace → LiveBody

pub record LiveEvt : Type 0 where
  pub at : ℕ
  pub body : LiveBody

pub record IngestDb : Type 0 where
  pub tables : PacketTables
  pub coverage : List CoverageSample
  pub payloads : List PayloadRow
  pub nodes : NodeTables
  pub links : List LinkRow
  pub side : SideTables
  pub topology : TopologyTables
  pub live_events : List LiveEvt

unfoldable pub insert_live_events : List LiveEvt → IngestDb → IngestDb
insert_live_events [] db = db
insert_live_events (e ∷ es) db = record db { live_events = db.live_events ++ (e ∷ es) }
