-- ===== src/Tx/State.antt =====
-- The decisions of the transmit outbox, src/lib/txstate.ts. Times and delays are milliseconds. A
-- time that lies ahead of the clock gives a negative age there and the age 0 here, which are on
-- the same side of each window.
pub mod Promote
pub mod Limits
mod Tests
use hop_watch.Prelude.{
  ℕ, ◌+◌, ◌-◌, ◌*◌, ◌^◌, min, Bool, true, false, not, ◌&&◌, ◌||◌, Option, none, some, List, ltb,
  leb, ◌==◌, if◌then◌else◌, length, filter,
}

pub data TxState : Type 0 where
  queued held sending dry_run sent heard acked failed cancelled : TxState

abbrev pub minute_ms : ℕ
minute_ms = 60000

abbrev pub hour_ms : ℕ
hour_ms = 3600000

-- `sentAtMs.filter((t) => now - t < window).length`.
unfoldable pub sent_within : ℕ → ℕ → List ℕ → ℕ
sent_within window now ts = length (filter (λ t. ltb (now - t) window) ts)

unfoldable pub rate_allowed : List ℕ → ℕ → ℕ → ℕ → Bool
unfolding sent_within
rate_allowed sent_at now per_minute per_hour =
    ltb (sent_within minute_ms now sent_at) per_minute
    && ltb (sent_within hour_ms now sent_at) per_hour

unfoldable pub channel_util_ok : Option ℕ → ℕ → Bool
channel_util_ok none max_util = true
channel_util_ok (some util) max_util = leb util max_util

-- `attempts - 1` stops at 0, as `Math.max(0, attempts - 1)` does.
unfoldable pub backoff_ms : ℕ → ℕ
backoff_ms attempts = min (5000 * 3 ^ (attempts - 1)) 600000

pub sent_state : Bool → TxState
sent_state dry = if dry then dry_run else sent

pub record ConfirmationSignal : Type 0 where
  pub gateway_count : ℕ
  pub routing_ack : Bool

-- The states that `promote` returns as they are, whatever the signal says.
pub is_settled : TxState → Bool
is_settled cancelled = true
is_settled failed = true
is_settled queued = true
is_settled held = true
is_settled dry_run = true
is_settled _ = false

pub is_acked : TxState → Bool
is_acked acked = true
is_acked _ = false

pub promote : TxState → ConfirmationSignal → TxState
unfolding is_settled is_acked
promote current sig =
    if is_settled current
    then current
    else if sig.routing_ack
    then acked
    else if is_acked current
    then acked
    else if leb 1 sig.gateway_count
    then heard
    else current

pub record OutboxKey : Type 0 where
  pub packet_id : ℕ
  pub from_node : ℕ
  pub sent_at : ℕ

pub record IncomingReception : Type 0 where
  pub packet_id : ℕ
  pub from_node : ℕ
  pub rx_at : ℕ

abbrev pub default_window_ms : ℕ
default_window_ms = 900000

-- `dt >= -1000 && dt <= windowMs` for `dt = rxAtMs - sentAtMs`, with both sides moved.
pub is_confirmation : OutboxKey → IncomingReception → ℕ → Bool
is_confirmation o r window =
    if not (r.packet_id == o.packet_id) || not (r.from_node == o.from_node)
    then false
    else leb o.sent_at (r.rx_at + 1000) && leb r.rx_at (o.sent_at + window)
