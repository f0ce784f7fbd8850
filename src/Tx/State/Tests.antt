-- ===== src/Tx/State/Tests.antt =====
-- Runs of the outbox decisions, and the theorems at concrete values.
use hop_watch.Prelude.{ℕ, ◌≡◌, refl, true, false, [], ◌∷◌}
use hop_watch.Tx.State.{
  sent, acked, rate_allowed, backoff_ms, ConfirmationSignal, promote, OutboxKey, IncomingReception,
}
use hop_watch.Tx.State.Promote.{promote_all}

abbrev heard_by : ℕ → ConfirmationSignal
heard_by n = record { gateway_count = n; routing_ack = false }

abbrev ack : ConfirmationSignal
ack = record { gateway_count = 0; routing_ack = true }

promote_run : promote_all sent (heard_by 0 ∷ ack ∷ heard_by 2 ∷ []) ≡ acked
unfolding promote_all promote
promote_run = refl

backoff_run : backoff_ms 3 ≡ 45000
unfolding backoff_ms
backoff_run = refl

allowed_now : rate_allowed (1000 ∷ 200000 ∷ []) 230000 3 20 ≡ true
unfolding rate_allowed
allowed_now = refl

abbrev row_key : OutboxKey
row_key = record { packet_id = 7; from_node = 9; sent_at = 5000 }

abbrev early_copy : IncomingReception
early_copy = record { packet_id = 7; from_node = 9; rx_at = 4500 }
