-- ===== src/Ingest/Pipeline/Envelope.antt =====
-- What the pipeline is handed: the normalized shapes of src/meshtastic/types.ts, and the metadata and
-- results of src/ingest/pipeline.ts. `null` and `undefined` are `none`; times are milliseconds;
-- decimals (coordinates, signal values, metrics) are integers in a unit of their own, and a
-- number that may be no number is a `JsNumber`. What the pipeline never reads of a payload, its
-- bytes and port name, is left out.
use hop_watch.Prelude.{ℕ, String, Bool, Option, none, some, List, str_eq, if◌then◌else◌}
use hop_watch.Prelude.Int.{ℤ}
use hop_watch.Meshtastic.Classify.{ReceptionClass}

-- `Number.isFinite` is false of `not_finite`.
pub data JsNumber : Type 0 where
  finite : ℤ → JsNumber
  not_finite : JsNumber

pub record PositionFix : Type 0 where
  pub latitude : JsNumber
  pub longitude : JsNumber
  pub altitude_m : Option ℤ
  pub precision_bits : Option ℕ

-- The identity fields, which a map report has too; it alone has `firmware_version`.
pub record Identity : Type 0 where
  pub long_name : Option String
  pub short_name : Option String
  pub hw_model : Option String
  pub role : Option String
  pub public_key : Option (List ℕ)
  pub is_licensed : Option Bool
  pub firmware_version : Option String

pub record MapReport : Type 0 where
  pub identity : Identity
  pub region : Option String
  pub modem_preset : Option String
  pub has_default_channel : Option Bool
  pub latitude : Option ℤ
  pub longitude : Option ℤ
  pub altitude_m : Option ℤ
  pub precision_bits : Option ℕ
  pub num_online_local_nodes : Option ℕ

pub record TextBody : Type 0 where
  pub text : String
  pub reply_to_packet_id : Option ℕ
  pub is_reaction : Option Bool

pub record Trace : Type 0 where
  pub route : List ℕ
  pub snr_towards : List ℤ
  pub snr_back : List ℤ
  pub route_back : List ℕ

pub data SensorKind : Type 0 where
  detection alert : SensorKind

pub data Stage : Type 0 where
  request response final : Stage

-- `errorCode` is signed.
pub record RoutingAnswer : Type 0 where
  pub request_id : ℕ
  pub error_code : ℤ
  pub error_name : Option String

pub record Neighbor : Type 0 where
  pub node : ℕ
  pub snr : JsNumber

pub data ParsedPayload : Type 0 where
  position : PositionFix → ParsedPayload
  nodeinfo : Identity → ParsedPayload
  telemetry : List (String × ℤ) → ParsedPayload
  text : TextBody → ParsedPayload
  traceroute : Trace → ParsedPayload
  sensor : SensorKind → String → ParsedPayload
  keyverification : ℕ → Stage → ParsedPayload
  routing : RoutingAnswer → ParsedPayload
  neighborinfo : ℕ → List Neighbor → ParsedPayload
  mapreport : MapReport → ParsedPayload
  raw : ParsedPayload

pub record DecodedData : Type 0 where
  pub portnum : ℕ
  pub parsed : Option ParsedPayload

pub record NormalizedPacket : Type 0 where
  pub mesh_packet_id : ℕ
  pub from : ℕ
  pub to : Option ℕ
  pub channel : Option ℕ
  pub channel_is_hash : Bool
  pub hop_start : Option ℕ
  pub hop_limit : Option ℕ
  pub relay_node : Option ℕ
  pub rx_rssi : Option ℤ
  pub rx_snr : Option ℤ
  pub rx_time_ms : Option ℕ
  pub want_ack : Bool
  pub via_mqtt : Bool
  pub ok_to_mqtt : Bool
  pub encrypted : Option (List ℕ)
  pub cipher_text : Option (List ℕ)
  pub decoded : Option DecodedData

pub record NormalizedEnvelope : Type 0 where
  pub gateway_id : ℕ
  pub channel_id : String
  pub packet : NormalizedPacket
  pub from_json : Bool

-- An absent transport is `mqtt`.
pub data RxTransport : Type 0 where
  mqtt rf : RxTransport

pub record IngestMeta : Type 0 where
  pub broker_id : String
  pub raw_topic : String
  pub window_seconds : ℕ
  pub transport : RxTransport

pub record IngestOutcome : Type 0 where
  pub new_packet : Bool
  pub new_reception : Bool
  pub packet_id : ℕ
  pub reception_class : ReceptionClass

-- `p.decoded?.parsed`.
unfoldable pub parsed_of : NormalizedPacket → Option ParsedPayload
parsed_of p = elim p.decoded [ none ↦ none | some d ↦ d.parsed ]

-- `s || null`.
unfoldable pub text_or_null : String → Option String
text_or_null s = if str_eq s "" then none else some s
