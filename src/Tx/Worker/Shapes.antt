-- ===== src/Tx/Worker/Shapes.antt =====
-- What the loop of runTxOutbox, src/worker/tx.ts, reads and writes.
use hop_watch.Prelude.{ℕ, String, Bool, Option, List}
use hop_watch.Tx.Outbox.{Transport, TxKind, Outbox}

pub record TxConfig : Type 0 where
  pub enabled : Bool
  pub armed : Bool
  pub dry_run : Bool
  pub from_node : ℕ
  pub per_minute : ℕ
  pub per_hour : ℕ
  pub max_channel_util : ℕ
  pub max_hop_limit : ℕ
  pub transport : Transport
  pub broker_id : String
  pub ok_to_mqtt : Bool
  pub node_long_name : String
  pub node_short_name : String

-- A broker with the topic root that `effectiveTopicRoot` finds for it.
pub record Broker : Type 0 where
  pub id : String
  pub root : String

pub record TxRequest : Type 0 where
  pub kind : TxKind
  pub from_node : ℕ
  pub to_node : Option ℕ
  pub channel_index : ℕ
  pub channel_name : String
  pub channel_key : String
  pub text : Option String
  pub long_name : String
  pub short_name : String
  pub hop_limit : ℕ
  pub want_ack : Bool
  pub ok_to_mqtt : Bool
  pub topic_root : String
  pub packet_id : Option ℕ

pub record Encoded : Type 0 where
  pub packet_id : ℕ
  pub payload : List ℕ
  pub topic : String

-- `encodeToRadio` and `encodeTx`: given a random packet id, `none` where they throw.
pub record Encoder : Type 0 where
  pub to_radio : ℕ → TxRequest → Option Encoded
  pub to_mqtt : ℕ → TxRequest → Option Encoded

-- What happens around the work on one row: the clock readings, whether the target is muted, the
-- random number, the channel's index on the node, whether publishing and recording succeed, and
-- what other processes have written to the outbox before the work begins.
pub record Around : Type 0 where
  pub at_backoff : ℕ
  pub at_rate : ℕ
  pub at_claim : ℕ
  pub at_fail : ℕ
  pub at_publish : ℕ
  pub at_push : ℕ
  pub muted : Bool
  pub random : ℕ
  pub channel_index : Option ℕ
  pub publish_ok : Bool
  pub record_ok : Bool
  pub meanwhile : Outbox → Outbox

-- A publish that succeeded; one that throws counts as none, whatever may have gone out before.
pub record Published : Type 0 where
  pub row : ℕ
  pub via : Transport
  pub broker : Option String
  pub request : TxRequest
  pub encoded : Encoded

pub record Tick : Type 0 where
  pub db : Outbox
  pub recent : List ℕ
  pub sent : ℕ
  pub published : List Published

-- The end of a round: on to the next row, or `break`.
pub data Verdict : Type 0 where
  done halt : Tick → Verdict
