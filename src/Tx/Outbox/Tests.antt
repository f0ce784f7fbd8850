-- ===== src/Tx/Outbox/Tests.antt =====
-- Runs of the statements on the outbox, and the theorems at concrete values.
use hop_watch.Prelude.{ℕ, suc, ◌≤◌, max, ◌≡◌, refl, true, false, none, some, [], ◌∷◌, map, arith}
use hop_watch.Tx.State.{queued}
use hop_watch.Tx.Outbox.{
  text, OutboxRow, Outbox, EnqueueInput, claim_for_send, cancel_outbox, list_pending_tx, is_pending,
}
use hop_watch.Tx.Outbox.Statements.{claim_for_send_once}
use hop_watch.Tx.Outbox.Touched.{has_id}

abbrev row : ℕ → OutboxRow
row i = record {
  id = i;
  transport = none;
  broker_id = none;
  kind = text;
  channel_id = some "LongFast";
  to_node = none;
  from_node = 7;
  payload_text = some "hi";
  packet_id = none;
  hop_limit = 3;
  want_ack = false;
  state = queued;
  attempts = 0;
  last_attempt_at = none;
  sent_at = none;
  error = none;
}

abbrev two : Outbox
two = row 1 ∷ row 2 ∷ []

claim_run : map (λ r. is_pending r.state) (claim_for_send 2 50 two).0 ≡ true ∷ false ∷ []
unfolding claim_for_send is_pending
claim_run = refl

claim_for_send_once_example :
    (claim_for_send 2 60 (claim_for_send 2 50 two).0 ≡ ((claim_for_send 2 50 two).0, false))
    × (cancel_outbox 2 (claim_for_send 2 50 two).0 ≡ ((claim_for_send 2 50 two).0, false))
    × (has_id 2 (list_pending_tx 50 (claim_for_send 2 50 two).0) ≡ false)
claim_for_send_once_example = claim_for_send_once 2 50 60 50 two

abbrev input : EnqueueInput
input = record {
  transport = none;
  broker_id = some "";
  kind = text;
  channel_id = some "LongFast";
  to_node = none;
  from_node = 7;
  payload_text = some "hi";
  hop_limit = 3;
  want_ack = false;
}

-- An id above all the others is unused.
abbrev above : Outbox → ℕ
above [] = 1
above (r ∷ rs) = suc (max r.id (above rs))

above_unused : (db : Outbox) → has_id (above db) db ≡ false
above_unused db = up db (above db) (omega arith)
  where
    up : (db : Outbox) (n : ℕ) → above db ≤ n → has_id n db ≡ false
    up [] n h = refl
    up (r ∷ rs) n h = ground (arith, up rs n (omega arith))
