-- ===== src/Tx/Outbox.antt =====
-- The outbox table and the statements on it, src/db/tx.ts. The table is the list of its rows in
-- the order of their ids; a statement that sets columns is a function on a row. Times are
-- milliseconds. The live event that a state change also emits is not modelled.
pub mod Touched
pub mod Statements
mod Tests
use hop_watch.Prelude.{
  ℕ, suc, ◌+◌, String, Bool, true, false, ◌&&◌, Option, none, some, List, [], ◌∷◌, ◌++◌, str_eq,
  ltb, leb, ◌==◌, if◌then◌else◌, length, take, filter,
}
use hop_watch.Tx.State.{
  TxState, queued, held, sending, dry_run, sent, heard, acked, failed, cancelled,
}

pub data Transport : Type 0 where
  mqtt node : Transport

pub data TxKind : Type 0 where
  text dm traceroute position_req telemetry_req announce admin_probe : TxKind

-- The error texts that the worker and the statements write.
pub data TxError : Type 0 where
  target_muted util_over no_channel_key no_node_channel no_topic_root encode_failed publish_failed
        interrupted :
      TxError
  nak : Option String → TxError

pub record OutboxRow : Type 0 where
  pub id : ℕ
  pub transport : Option Transport
  pub broker_id : Option String
  pub kind : TxKind
  pub channel_id : Option String
  pub to_node : Option ℕ
  pub from_node : ℕ
  pub payload_text : Option String
  pub packet_id : Option ℕ
  pub hop_limit : ℕ
  pub want_ack : Bool
  pub state : TxState
  pub attempts : ℕ
  pub last_attempt_at : Option ℕ
  pub sent_at : Option ℕ
  pub error : Option TxError

abbrev pub Outbox : Type 0
Outbox = List OutboxRow

-- `state IN ('queued','held')`.
unfoldable pub is_pending : TxState → Bool
is_pending queued = true
is_pending held = true
is_pending _ = false

unfoldable pub is_sending : TxState → Bool
is_sending sending = true
is_sending _ = false

-- `WHERE id = ?` on the primary key.
unfoldable pub get_outbox : ℕ → Outbox → Option OutboxRow
get_outbox id [] = none
get_outbox id (r ∷ rs) = if r.id == id then some r else get_outbox id rs

-- `UPDATE tx_outbox SET … WHERE id = ?`.
unfoldable pub update_outbox : ℕ → (OutboxRow → OutboxRow) → Outbox → Outbox
update_outbox id patch [] = []
update_outbox id patch (r ∷ rs) = (if r.id == id then patch r else r) ∷ update_outbox id patch rs

-- `UPDATE tx_outbox SET … WHERE id = ? AND state IN ('queued','held')`, with `affectedRows`.
unfoldable pub update_pending : ℕ → (OutboxRow → OutboxRow) → Outbox → Outbox × ℕ
unfolding is_pending
update_pending id patch [] = ([], 0)
update_pending id patch (r ∷ rs) =
    let (rest, n) = update_pending id patch rs in
    if r.id == id && is_pending r.state then (patch r ∷ rest, suc n) else (r ∷ rest, n)

-- The columns that `setState` writes besides the state are the patch of the call.
unfoldable pub set_state : ℕ → TxState → (OutboxRow → OutboxRow) → Outbox → Outbox
unfolding update_outbox
set_state id s extra = update_outbox id (λ r. record (extra r) { state = s })

-- `affectedRows === 1`.
unfoldable pub claim_for_send : ℕ → ℕ → Outbox → Outbox × Bool
unfolding update_pending
claim_for_send id now db =
    let (db', n) =
      update_pending id (λ r. record r { state = sending; last_attempt_at = some now }) db in
    (db', n == 1)

-- `affectedRows > 0`.
unfoldable pub cancel_outbox : ℕ → Outbox → Outbox × Bool
unfolding update_pending
cancel_outbox id db =
    let (db', n) = update_pending id (λ r. record r { state = cancelled }) db in (db', ltb 0 n)

unfoldable pub fail_interrupted_sends : Outbox → Outbox
unfolding is_sending
fail_interrupted_sends [] = []
fail_interrupted_sends (r ∷ rs) =
    (if is_sending r.state then record r { state = failed; error = some interrupted } else r)
    ∷ fail_interrupted_sends rs

-- `ORDER BY id ASC LIMIT n`.
unfoldable pub list_pending_tx : ℕ → Outbox → List OutboxRow
unfolding is_pending
list_pending_tx limit db = take limit (filter (λ r. is_pending r.state) db)

-- The send times of the rows that count, from an hour before `now` on.
counts_as_sent : TxState → Bool
counts_as_sent sent = true
counts_as_sent heard = true
counts_as_sent acked = true
counts_as_sent dry_run = true
counts_as_sent _ = false

unfoldable pub recent_sent_at : ℕ → Outbox → List ℕ
unfolding counts_as_sent
recent_sent_at now [] = []
recent_sent_at now (r ∷ rs) = elim r.sent_at [
  | none ↦ recent_sent_at now rs
  | some t ↦
      if counts_as_sent r.state && leb now (t + 3600000)
      then t ∷ recent_sent_at now rs
      else recent_sent_at now rs
]

-- The values of an `INSERT` through `enqueueTx`; the table assigns `id`.
pub record EnqueueInput : Type 0 where
  pub transport : Option Transport
  pub broker_id : Option String
  pub kind : TxKind
  pub channel_id : Option String
  pub to_node : Option ℕ
  pub from_node : ℕ
  pub payload_text : Option String
  pub hop_limit : ℕ
  pub want_ack : Bool

-- `brokerId || null`: an empty text is no broker.
or_null : Option String → Option String
or_null none = none
or_null (some b) = if str_eq b "" then none else some b

or_mqtt : Option Transport → Option Transport
or_mqtt none = some mqtt
or_mqtt (some t) = some t

unfoldable pub enqueue_tx : ℕ → EnqueueInput → Outbox → Outbox
unfolding or_mqtt or_null
enqueue_tx id i db =
    db
    ++ record {
      id = id;
      transport = or_mqtt i.transport;
      broker_id = or_null i.broker_id;
      kind = i.kind;
      channel_id = i.channel_id;
      to_node = i.to_node;
      from_node = i.from_node;
      payload_text = i.payload_text;
      packet_id = none;
      hop_limit = i.hop_limit;
      want_ack = i.want_ack;
      state = queued;
      attempts = 0;
      last_attempt_at = none;
      sent_at = none;
      error = none;
    }
      ∷ []

unfoldable pub outbox_backlog : Outbox → ℕ
unfolding is_pending
outbox_backlog db = length (filter (λ r. is_pending r.state) db)
