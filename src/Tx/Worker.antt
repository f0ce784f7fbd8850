-- ===== src/Tx/Worker.antt =====
-- The worker's tick over the outbox, src/worker/tx.ts. The clock readings of the tick, what the
-- tick reads from the database and the station node, and what other processes write to the outbox
-- are arguments, one `Around` for each row. The debug log and the live events are not modelled.
pub mod Shapes
pub mod Row
pub mod Sent
pub mod Loop
pub mod Settled
pub mod Ticks
pub mod Pace
pub mod Hold
pub mod Safety
mod Tests
use hop_watch.Prelude.{
  ℕ, String, Bool, true, false, not, ◌&&◌, Option, none, some, List, [], ◌∷◌, ◌==◌, if◌then◌else◌,
  is_some, filter,
}
use Row.{run_row}
use Shapes.{Around, TxConfig, Broker, Encoder, Tick, Verdict, done, halt}
use hop_watch.Tx.State.{
  TxState, queued, held, sending, dry_run, sent, heard, acked, failed, cancelled,
  ConfirmationSignal, promote,
}
use hop_watch.Tx.Outbox.{
  OutboxRow, Outbox, TxError, nak, set_state, list_pending_tx, recent_sent_at, update_outbox,
}

pub data Gate : Type 0 where
  disabled no_from_node not_armed : Gate

-- Why queued rows are not moving, if they are not.
unfoldable pub gate : TxConfig → Option Gate
gate cfg =
    if not cfg.enabled
    then some disabled
    else if cfg.from_node == 0
    then some no_from_node
    else if not cfg.armed
    then some not_armed
    else none

-- An answer of the mesh to one packet: an acknowledgement, or a routing error.
pub record Answer : Type 0 where
  pub acked : Bool
  pub error_name : Option String

-- What the database knows of the packets that were sent.
pub record Evidence : Type 0 where
  pub heard_by : ℕ → ℕ → ℕ
  pub routing_answer : ℕ → Option Answer

pub is_failed : TxState → Bool
is_failed failed = true
is_failed _ = false

-- `state IN ('sent','heard')`, of the rows that are recent enough.
unfoldable pub is_watched : TxState → Bool
is_watched sent = true
is_watched heard = true
is_watched _ = false

unfoldable pub watchable : (OutboxRow → Bool) → Outbox → List OutboxRow
unfolding is_watched
watchable recent_enough db =
    filter (λ r. is_watched r.state && recent_enough r && is_some r.packet_id) db

pub is_nak : Option Answer → Bool
is_nak none = false
is_nak (some a) = not a.acked

pub nak_name : Option Answer → Option String
nak_name none = none
nak_name (some a) = a.error_name

pub is_ack : Option Answer → Bool
is_ack none = false
is_ack (some a) = a.acked

-- `next !== row.state` is the negation of this.
state_code : TxState → ℕ
state_code queued = 0
state_code held = 1
state_code sending = 2
state_code dry_run = 3
state_code sent = 4
state_code heard = 5
state_code acked = 6
state_code failed = 7
state_code cancelled = 8

pub same_state : TxState → TxState → Bool
unfolding state_code
same_state s t = state_code s == state_code t

-- One round of the loop of `reconcileConfirmations`; the table of confirmations is left out.
unfoldable pub reconcile_row : Evidence → OutboxRow → Outbox → Outbox
unfolding is_failed is_nak nak_name is_ack same_state
reconcile_row ev row db = elim row.packet_id [
  | none ↦ db
  | some p ↦
      let answer : Option Answer = if row.want_ack then ev.routing_answer p else none in
      let signal : ConfirmationSignal = record {
        gateway_count = ev.heard_by p row.from_node;
        routing_ack = is_ack answer;
      } in
      if is_nak answer
      then if is_failed row.state
        then db
        else set_state row.id failed (λ r. record r { error = some (nak (nak_name answer)) }) db
      else if same_state (promote row.state signal) row.state
      then db
      else set_state row.id (promote row.state signal) (λ r. r) db
]

unfoldable pub reconcile_rows : Evidence → List OutboxRow → Outbox → Outbox
reconcile_rows ev [] db = db
reconcile_rows ev (r ∷ rs) db = reconcile_rows ev rs (reconcile_row ev r db)

unfoldable pub reconcile_confirmations : Evidence → (OutboxRow → Bool) → Outbox → Outbox
unfolding watchable reconcile_rows
reconcile_confirmations ev recent_enough db = reconcile_rows ev (watchable recent_enough db) db

-- What one tick is given.
pub record TickInput : Type 0 where
  pub config : TxConfig
  pub evidence : Evidence
  pub recent_enough : OutboxRow → Bool
  pub keys : List (String × String)
  pub brokers : List Broker
  pub util : Option ℕ
  pub at_recent : ℕ
  pub around : ℕ → Around

-- The loop over the pending rows, left by `break` or at its end.
unfoldable pub run_rows : Encoder → TickInput → List OutboxRow → Tick → Tick
run_rows enc i [] t = t
run_rows enc i (r ∷ rs) t =
    elim (run_row enc i.config i.keys i.brokers i.util (i.around r.id) r t) [
      | done t' ↦ run_rows enc i rs t'
      | halt t' ↦ t'
    ]

abbrev pub page : ℕ
page = 50

-- A tick from an outbox, with what has been published before.
unfoldable pub run_tx_outbox : Encoder → TickInput → Tick → Tick
unfolding gate reconcile_confirmations run_rows
run_tx_outbox enc i t =
    let db : Outbox =
      if i.config.enabled then reconcile_confirmations i.evidence i.recent_enough t.db else t.db in
    elim (gate i.config) [
      | some g ↦ record t { db = db; sent = 0 }
      | none ↦
          run_rows enc i (list_pending_tx page db)
            (record t { db = db; recent = recent_sent_at i.at_recent db; sent = 0 })
    ]
