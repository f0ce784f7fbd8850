-- ===== src/Ingest/Connector/Orphan.antt =====
-- What a request to reconnect leaves behind, src/ingest/nodeConnector.ts.
use hop_watch.Prelude.{ℕ, ◌+◌, ◌<◌, ◌≡◌, refl, true, false, some, [], ◌∷◌, arith, ◌==◌}
use hop_watch.Ingest.Connector.{
  NodeRxConnector, reconnects_now, timer_fires, closes, destroy_socket, clear_socket_timers,
  connect, schedule_reconnect, reconnect_now, on_close, on_timer, on_connector, on_connectors,
}

-- A connector that is connected by the socket `a`, out of `n` that were opened.
abbrev pub connected_by : ℕ → ℕ → NodeRxConnector
connected_by a n = record {
  socket = some a;
  alive = a ∷ [];
  opened = n;
  connected = true;
  stopped = false;
  yielded = false;
  backoff = 1000;
  reconnect_timer = false;
  heartbeat_timer = true;
  watchdog_timer = true;
  lease_timer = true;
  reconnects = 0;
  last_kick_ms = 0;
}

-- When a connected connector is told to reconnect, the old socket closes and the timer fires, two
-- sockets are alive, the second of them orphaned; and when the node closes the orphan the connector,
-- which has a socket of its own, waits to open yet another.
pub reconnect_orphans :
    (a n : ℕ)
    → a < n
    → ((on_connectors (reconnects_now ∷ closes a ∷ timer_fires ∷ []) (connected_by a n)).alive
        ≡ (n + 1) ∷ n ∷ [])
      × ((on_connectors (reconnects_now ∷ closes a ∷ timer_fires ∷ []) (connected_by a n)).socket
          ≡ some (n + 1))
      × ((on_connectors
            (reconnects_now ∷ closes a ∷ timer_fires ∷ closes n ∷ [])
            (connected_by a n)).socket
          ≡ some (n + 1))
      × ((on_connectors
            (reconnects_now ∷ closes a ∷ timer_fires ∷ closes n ∷ [])
            (connected_by a n)).reconnect_timer
          ≡ true)
unfolding on_connectors on_connector reconnect_now on_close on_timer connect destroy_socket
    schedule_reconnect clear_socket_timers
reconnect_orphans a n h =
    let ne : (n == a) ≡ false = ground arith in
    let self : (a == a) ≡ true = ground arith in
    let next : (n + 1 == n) ≡ false = ground arith in rw (ne, self, next) (refl, refl, refl, refl)
