-- ===== src/Tx/Worker/Row.antt =====
-- One row in the loop of `runTxOutbox`, src/worker/tx.ts.
use hop_watch.Prelude.{
  ℕ, ◌+◌, ◌-◌, min, String, Bool, true, false, not, ◌&&◌, ◌||◌, Option, none, some, List, [], ◌∷◌,
  ◌++◌, str_eq, ltb, leb, ◌==◌, if◌then◌else◌, is_some,
}
use hop_watch.Tx.State.{
  TxState, queued, held, dry_run, sent, failed, rate_allowed, channel_util_ok, backoff_ms,
}
use hop_watch.Tx.Outbox.{
  Transport, mqtt, node, TxKind, dm, traceroute, position_req, telemetry_req, admin_probe, TxError,
  target_muted, util_over, no_channel_key, no_node_channel, no_topic_root, encode_failed,
  publish_failed, OutboxRow, Outbox, update_outbox, set_state, claim_for_send,
}
use hop_watch.Tx.Worker.Shapes.{
  TxConfig, Broker, TxRequest, Encoded, Encoder, Around, Published, Tick, Verdict, done, halt,
}

abbrev pub max_attempts : ℕ
max_attempts = 5

unfoldable pub needs_target : TxKind → Bool
needs_target dm = true
needs_target traceroute = true
needs_target position_req = true
needs_target telemetry_req = true
needs_target admin_probe = true
needs_target _ = false

unfoldable pub is_probe : TxKind → Bool
is_probe admin_probe = true
is_probe _ = false

unfoldable pub is_node : Transport → Bool
is_node node = true
is_node mqtt = false

-- Released for a retry, or failed for good at the cap.
unfoldable pub fail : OutboxRow → TxError → ℕ → Outbox → Outbox
fail row why now db =
    set_state row.id (if leb max_attempts (row.attempts + 1) then failed else queued)
      (λ r. record r { attempts = row.attempts + 1; last_attempt_at = some now; error = some why })
      db

-- Not within the backoff after a failed attempt.
unfoldable pub due : OutboxRow → ℕ → Bool
due row now = elim row.last_attempt_at [
  | none ↦ true
  | some t ↦ not (ltb (now - t) (backoff_ms row.attempts))
]

abbrev pub text_or_empty : Option String → String
text_or_empty none = ""
text_or_empty (some s) = s

unfoldable pub key_of : String → List (String × String) → String
key_of name [] = ""
key_of name ((n, k) ∷ ks) = if str_eq n name then k else key_of name ks

find_broker : String → List Broker → Option Broker
find_broker id [] = none
find_broker id (b ∷ bs) = if str_eq b.id id then some b else find_broker id bs

first_root : List Broker → String
first_root [] = ""
first_root (b ∷ bs) = b.root

-- `brokerId || txBrokerId`.
wanted : Option String → String → String
wanted row_broker tx_broker =
    if str_eq (text_or_empty row_broker) "" then tx_broker else text_or_empty row_broker

unfoldable pub topic_root_for : List Broker → Option String → String → String
unfolding find_broker first_root wanted
topic_root_for brokers row_broker tx_broker =
    if str_eq (wanted row_broker tx_broker) ""
    then first_root brokers
    else elim (find_broker (wanted row_broker tx_broker) brokers) [
      | none ↦ first_root brokers
      | some b ↦ b.root
    ]

-- `row.transport ?? tx.transport`, but a probe always takes the station node.
unfoldable pub using_node : TxConfig → OutboxRow → Bool
unfolding is_probe is_node
using_node cfg row =
    is_probe row.kind || elim row.transport [ none ↦ is_node cfg.transport | some t ↦ is_node t ]

unfoldable pub request_of : TxConfig → OutboxRow → ℕ → String → String → TxRequest
request_of cfg row index key root = record {
  kind = row.kind;
  from_node = cfg.from_node;
  to_node = row.to_node;
  channel_index = index;
  channel_name = text_or_empty row.channel_id;
  channel_key = key;
  text = row.payload_text;
  long_name = cfg.node_long_name;
  short_name = cfg.node_short_name;
  hop_limit = min row.hop_limit cfg.max_hop_limit;
  want_ack = row.want_ack;
  ok_to_mqtt = cfg.ok_to_mqtt;
  topic_root = root;
  packet_id = row.packet_id;
}

-- The columns that a dry run and a send both write.
unfoldable pub sent_patch : OutboxRow → ℕ → ℕ → TxState → OutboxRow → OutboxRow
sent_patch row packet now s r = record r {
  packet_id = some packet;
  sent_at = some now;
  attempts = row.attempts + 1;
  last_attempt_at = some now;
  error = none;
  state = s;
}

-- `if (row.packet_id !== packetId)` the packet id is written before the publish.
unfoldable pub same_packet : Option ℕ → ℕ → Bool
same_packet none p = false
same_packet (some q) p = q == p

unfoldable pub keep_packet_id : OutboxRow → ℕ → Outbox → Outbox
unfolding same_packet
keep_packet_id row packet db =
    if same_packet row.packet_id packet
    then db
    else update_outbox row.id (λ r. record r { packet_id = some packet }) db

-- The transport that `publish` is called on, with what it is given.
unfoldable pub published_of : OutboxRow → Bool → TxRequest → Encoded → Published
published_of row on_node req e = record {
  row = row.id;
  via = if on_node then node else mqtt;
  broker = if on_node then none else row.broker_id;
  request = req;
  encoded = e;
}

-- The dry run, or the publish and then its record, of an encoded packet.
unfoldable pub finish : TxConfig → Around → OutboxRow → Bool → TxRequest → Encoded → Tick → Tick
unfolding fail sent_patch keep_packet_id published_of
finish cfg env row on_node req e t =
    let db = keep_packet_id row e.packet_id t.db in
    let write =
      λ (s : TxState). update_outbox row.id (sent_patch row e.packet_id env.at_publish s) db in
    let ahead : Tick = record t {
      db = db;
      recent = t.recent ++ env.at_push ∷ [];
      sent = t.sent + 1;
    } in
    let out : Published = published_of row on_node req e in
    if cfg.dry_run
    then record ahead { db = write dry_run }
    else if not env.publish_ok
    then record t { db = fail row publish_failed env.at_fail db }
    else record ahead {
      db = if env.record_ok then write sent else db;
      published = out ∷ t.published;
    }

-- Encode the request for the transport, and go on if that did not throw.
unfoldable pub encode : Encoder → TxConfig → Around → OutboxRow → Bool → TxRequest → Tick → Tick
unfolding finish fail
encode enc cfg env row on_node req t =
    elim (if on_node then enc.to_radio env.random req else enc.to_mqtt env.random req) [
      | none ↦ record t { db = fail row encode_failed env.at_fail t.db }
      | some e ↦ finish cfg env row on_node req e t
    ]

-- What is done with a row that has been claimed.
unfoldable pub transmit :
    Encoder → TxConfig → List (String × String) → List Broker → Around → OutboxRow → Tick → Tick
unfolding using_node encode fail request_of
transmit enc cfg keys brokers env row t =
    let key = key_of (text_or_empty row.channel_id) keys in
    let root = topic_root_for brokers row.broker_id cfg.broker_id in
    if using_node cfg row
    then elim env.channel_index [
      | none ↦ record t { db = fail row no_node_channel env.at_fail t.db }
      | some index ↦ encode enc cfg env row true (request_of cfg row index key "") t
    ]
    else if str_eq key ""
    then record t { db = fail row no_channel_key env.at_fail t.db }
    else if str_eq root ""
    then record t { db = fail row no_topic_root env.at_fail t.db }
    else encode enc cfg env row false (request_of cfg row 0 key root) t

-- The guards before the claim, the claim, and the transmission.
unfoldable pub run_row :
    Encoder
    → TxConfig
    → List (String × String)
    → List Broker
    → Option ℕ
    → Around
    → OutboxRow
    → Tick
    → Verdict
unfolding due needs_target transmit
run_row enc cfg keys brokers util env row before =
    let t : Tick = record before { db = env.meanwhile before.db } in
    if not (due row env.at_backoff)
    then done t
    else if not (rate_allowed t.recent env.at_rate cfg.per_minute cfg.per_hour)
    then halt t
    else if needs_target row.kind && is_some row.to_node && env.muted
    then done (record t {
      db = set_state row.id failed (λ r. record r { error = some target_muted }) t.db;
    })
    else if not (channel_util_ok util cfg.max_channel_util)
    then done
        (record t { db = set_state row.id held (λ r. record r { error = some util_over }) t.db })
    else let (db', won) = claim_for_send row.id env.at_claim t.db in
      if not won
      then done (record t { db = db' })
      else done (transmit enc cfg keys brokers env row (record t { db = db' }))
