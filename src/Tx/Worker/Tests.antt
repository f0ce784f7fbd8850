-- ===== src/Tx/Worker/Tests.antt =====
-- Ticks of the worker, and the theorems at concrete values.
use hop_watch.Prelude.{ℕ, ◌+◌, ◌≤◌, ◌≡◌, refl, true, false, none, some, [], ◌∷◌, map, arith, length}
use hop_watch.Tx.State.{queued, sent_within, rate_allowed, channel_util_ok}
use hop_watch.Tx.Outbox.{
  is_pending, mqtt, text, OutboxRow, Outbox, list_pending_tx, recent_sent_at, claim_for_send,
  update_pending, cancel_outbox,
}
use hop_watch.Tx.Outbox.Statements.{Honest}
use hop_watch.Tx.Outbox.Touched.{waiting}
use hop_watch.Tx.Worker.{
  gate, reconcile_confirmations, reconcile_rows, watchable, run_rows, TickInput, Evidence,
  run_tx_outbox,
}
use hop_watch.Tx.Worker.Row.{
  transmit, encode, finish, using_node, due, needs_target, request_of, key_of, topic_root_for,
  published_of, run_row,
}
use hop_watch.Tx.Worker.Shapes.{TxConfig, Encoder, Around, Tick}
use hop_watch.Tx.Worker.Loop.{tick_of}
use hop_watch.Tx.Worker.Ticks.{Run, Run-once}
use hop_watch.Tx.Worker.Settled.{HonestInput, once}
use hop_watch.Tx.Worker.Safety.{read_rows, Adds, Allowed, run_tx_outbox_safe}
use hop_watch.Tx.Worker.Pace.{Brief, run_tx_outbox_pace}
use hop_watch.Tx.Worker.Hold.{cancelled_row_revives}

abbrev config : TxConfig
config = record {
  enabled = true;
  armed = true;
  dry_run = false;
  from_node = 7;
  per_minute = 1;
  per_hour = 9;
  max_channel_util = 25;
  max_hop_limit = 3;
  transport = mqtt;
  broker_id = "home";
  ok_to_mqtt = true;
  node_long_name = "Station";
  node_short_name = "ST";
}

abbrev message : ℕ → OutboxRow
message i = record {
  id = i;
  transport = none;
  broker_id = none;
  kind = text;
  channel_id = some "LongFast";
  to_node = none;
  from_node = 7;
  payload_text = some "hi";
  packet_id = none;
  hop_limit = 7;
  want_ack = false;
  state = queued;
  attempts = 0;
  last_attempt_at = none;
  sent_at = none;
  error = none;
}

-- An encoder that takes the random number as the packet id.
abbrev encoder : Encoder
encoder = record {
  to_radio = λ n req. some (record { packet_id = n; payload = []; topic = "" });
  to_mqtt = λ n req. some (record { packet_id = n; payload = []; topic = req.topic_root });
}

abbrev around_row : (Outbox → Outbox) → ℕ → Around
around_row m i = record {
  at_backoff = 1000000;
  at_rate = 1000000;
  at_claim = 1000000;
  at_fail = 1000000;
  at_publish = 1000000;
  at_push = 1000000;
  muted = false;
  random = 40 + i;
  channel_index = none;
  publish_ok = true;
  record_ok = true;
  meanwhile = m;
}

abbrev nothing_heard : Evidence
nothing_heard = record { heard_by = λ p n. 0; routing_answer = λ p. none }

abbrev idle : Outbox → Outbox
idle db = db

idle-Honest : Honest idle
idle-Honest = record { keys = λ db h. h; closed = λ i db a b. (a, b) }

abbrev input : TickInput
input = record {
  config = config;
  evidence = nothing_heard;
  recent_enough = λ r. true;
  keys = ("LongFast", "AQ==") ∷ [];
  brokers = record { id = "home"; root = "msh/EU" } ∷ [];
  util = none;
  at_recent = 1000000;
  around = around_row idle;
}

abbrev start : Tick
start = record { db = message 1 ∷ message 2 ∷ []; recent = []; sent = 0; published = [] }

input-HonestInput : HonestInput input
input-HonestInput k = idle-Honest

input-Brief : Brief input
input-Brief j k = omega arith

tick_run : map (λ p. p.row) (run_tx_outbox encoder input start).published ≡ 1 ∷ []
unfolding run_tx_outbox run_rows run_row reconcile_confirmations reconcile_rows watchable
    list_pending_tx recent_sent_at claim_for_send update_pending transmit encode finish using_node
    due rate_allowed sent_within channel_util_ok needs_target gate request_of key_of topic_root_for
    published_of
tick_run = refl

twice : Tick
unfolding run_tx_outbox
twice = run_tx_outbox encoder input (run_tx_outbox encoder input start)

Run-once_example : once twice.published ≡ true
unfolding twice
Run-once_example =
    Run-once encoder start twice refl refl
      (Run.tick input input-HonestInput (Run.tick input input-HonestInput (Run.stop twice)))

run_tx_outbox_safe_example :
    Adds (Allowed config (read_rows input start)) start (run_tx_outbox encoder input start)
run_tx_outbox_safe_example = run_tx_outbox_safe encoder input start input-HonestInput

run_tx_outbox_pace_example : length (run_tx_outbox encoder input start).published ≤ 1
run_tx_outbox_pace_example = run_tx_outbox_pace encoder input start input-Brief

-- The first message is cancelled while the worker holds it back on a busy channel.
cancelled_row_revives_example :
    let env : Around = record (around_row idle 1) { meanwhile = λ db. (cancel_outbox 1 db).0 } in
    let db' = (tick_of (run_row encoder config [] [] (some 80) env (message 1) start)).db in
    ((cancel_outbox 1 start.db).1 ≡ true)
    × (waiting 1 (cancel_outbox 1 start.db).0 ≡ false)
    × (waiting 1 db' ≡ true)
    × ((claim_for_send 1 2000000 db').1 ≡ true)
cancelled_row_revives_example =
    cancelled_row_revives encoder config [] [] (some 80) (around_row idle 1) (message 1) start
      2000000 (unfold due in refl) (unfold rate_allowed in refl) (unfold needs_target in refl)
      (unfold channel_util_ok in refl) refl (unfold is_pending in refl)
