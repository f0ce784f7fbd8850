-- ===== src/Ingest/Connector/Yield.antt =====
-- That the connector leaves the station node to the holder of the lease, src/ingest/nodeConnector.ts.
use hop_watch.Prelude.{
  ℕ, ◌≡◌, refl, sym, ap, subst, ◌∙◌, ◌≢◌, Bool, true, false, not, ◌||◌, Option, none, some, List,
  [], ◌∷◌, arith, ltb, ◌==◌, if◌then◌else◌, if-cases, any, Mem-filter, some_injective,
}
use mathlib.Core.List.{Memᴰ}
use hop_watch.Ingest.Connector.{
  watchdog_fires, on_watchdog, NodeRxConnector, ConnectorEvent, starts, stops, reconnects_now,
  timer_fires, kicked, lease, connects, closes, errs, destroy_socket, clear_socket_timers, connect,
  schedule_reconnect, start, stop_connector, reconnect_now, check_kick, check_held, on_connect,
  on_close, on_timer, on_connector, on_connectors, without, is_socket,
}

-- The connector, since it was like `before`, has yielded, has no socket of its own, no timer to
-- reconnect, and has opened no socket; what is still alive was alive before and was not its own.
pub record Yielded (before c : NodeRxConnector) : Type 0 where
  pub yielded : c.yielded ≡ true
  pub socket : c.socket ≡ none
  pub timer : c.reconnect_timer ≡ false
  pub opened : c.opened ≡ before.opened
  pub left : (i : ℕ) → Memᴰ i c.alive → Memᴰ i before.alive × (before.socket ≢ some i)

-- The lease is found free.
abbrev pub is_release : ConnectorEvent → Bool
is_release (lease false) = true
is_release _ = false

connect_yielded : (c : NodeRxConnector) → c.yielded ≡ true → connect c ≡ c
unfolding connect
connect_yielded c h =
    if-cases (λ c'. c' ≡ c) (c.stopped || c.yielded) (λ _. refl) (λ f. absurd (ground arith))

schedule_yielded : (c : NodeRxConnector) → c.yielded ≡ true → schedule_reconnect c ≡ c
unfolding schedule_reconnect
schedule_yielded c h =
    if-cases (λ c'. c' ≡ c) (c.stopped || c.reconnect_timer || c.yielded) (λ _. refl)
      (λ f. absurd (ground arith))

reconnect_yielded : (c : NodeRxConnector) → c.yielded ≡ true → reconnect_now c ≡ c
unfolding reconnect_now
reconnect_yielded c h =
    if-cases (λ c'. c' ≡ c) (c.stopped || c.yielded) (λ _. refl) (λ f. absurd (ground arith))

destroy_none : (c : NodeRxConnector) → c.socket ≡ none → destroy_socket c ≡ c
unfolding destroy_socket
destroy_none c h =
    ap
      (λ o. elim o as (λ _. NodeRxConnector) [
        | none ↦ c
        | some s ↦ record (clear_socket_timers c) { socket = none; alive = without s c.alive }
      ])
      h

on_connector-Yielded :
    (b : NodeRxConnector) (e : ConnectorEvent) (c : NodeRxConnector)
    → is_release e ≡ false
    → Yielded b c
    → Yielded b (on_connector e c)
unfolding on_connector start stop_connector check_kick check_held on_connect on_close on_timer
    on_watchdog clear_socket_timers
on_connector-Yielded b starts c h y =
    rw (connect_yielded (record c { stopped = false; lease_timer = true }) y.yielded) (record {
      yielded = y.yielded;
      socket = y.socket;
      timer = y.timer;
      opened = y.opened;
      left = y.left;
    })
on_connector-Yielded b stops c h y =
    rw
      (destroy_none
        (record c {
          heartbeat_timer = false;
          watchdog_timer = false;
          stopped = true;
          reconnect_timer = false;
          lease_timer = false;
        })
        y.socket)
      (record {
        yielded = y.yielded;
        socket = y.socket;
        timer = refl;
        opened = y.opened;
        left = y.left;
      })
on_connector-Yielded b reconnects_now c h y = rw (reconnect_yielded c y.yielded) y
on_connector-Yielded b timer_fires c h y =
    if-cases (Yielded b) c.reconnect_timer (λ t. absurd (let q = y.timer in cc)) (λ _. y)
on_connector-Yielded b watchdog_fires c h y =
    if-cases (Yielded b) c.watchdog_timer
      (λ _.
        subst
          (λ o. Yielded b (elim o as (λ _. NodeRxConnector) [
            | none ↦ record c { watchdog_timer = false }
            | some s ↦ record c { watchdog_timer = false; alive = without s c.alive }
          ]))
          (sym y.socket)
          (record {
            yielded = y.yielded;
            socket = y.socket;
            timer = y.timer;
            opened = y.opened;
            left = y.left;
          }))
      (λ _. y)
on_connector-Yielded b (kicked t) c h y =
    if-cases (Yielded b) (c.stopped || not (ltb c.last_kick_ms t)) (λ _. y)
      (λ _.
        if-cases (Yielded b) c.yielded
          (λ _. record {
            yielded = y.yielded;
            socket = y.socket;
            timer = y.timer;
            opened = y.opened;
            left = y.left;
          })
          (λ f. absurd (let q = y.yielded in cc)))
on_connector-Yielded b (lease true) c h y =
    rw (destroy_none (record c { yielded = true; reconnect_timer = false }) y.socket)
      (record { yielded = refl; socket = y.socket; timer = refl; opened = y.opened; left = y.left })
on_connector-Yielded b (lease false) c h y = absurd (cc)
on_connector-Yielded b (connects s) c h y = record {
  yielded = y.yielded;
  socket = y.socket;
  timer = y.timer;
  opened = y.opened;
  left = y.left;
}
on_connector-Yielded b (closes s) c h y =
    if-cases (Yielded b) c.stopped (λ _. closed)
      (λ _. if-cases (Yielded b) c.yielded (λ _. closed) (λ f. absurd (let q = y.yielded in cc)))
  where
    closed : Yielded b (record c {
      heartbeat_timer = false;
      watchdog_timer = false;
      connected = false;
      alive = without s c.alive;
      socket = if is_socket s c.socket then none else c.socket;
    })
    closed = record {
      yielded = y.yielded;
      socket = if-cases (λ o. o ≡ none) (is_socket s c.socket) (λ _. refl) (λ _. y.socket);
      timer = y.timer;
      opened = y.opened;
      left = λ i m. y.left i ((Mem-filter (λ x. not (x == s)) i c.alive m).0);
    }
on_connector-Yielded b (errs s) c h y = record {
  yielded = y.yielded;
  socket = y.socket;
  timer = y.timer;
  opened = y.opened;
  left = y.left;
}

on_connectors-Yielded :
    (b : NodeRxConnector) (es : List ConnectorEvent) (c : NodeRxConnector)
    → any is_release es ≡ false
    → Yielded b c
    → Yielded b (on_connectors es c)
unfolding on_connectors
on_connectors-Yielded b [] c h y = y
on_connectors-Yielded b (e ∷ es) c h y =
    on_connectors-Yielded b es (on_connector e c) (ground arith)
      (on_connector-Yielded b e c (ground arith) y)

other_socket : (i s : ℕ) → not (i == s) ≡ true → s ≢ i
other_socket i s h same = absurd (ground arith)

held-Yielded : (c : NodeRxConnector) → Yielded c (check_held true c)
unfolding check_held destroy_socket clear_socket_timers
held-Yielded c = at c.socket refl
  where
    at :
        (o : Option ℕ)
        → c.socket ≡ o
        → Yielded c
            (record (elim o as (λ _. NodeRxConnector) [
              | none ↦ record c { yielded = true; reconnect_timer = false }
              | some s ↦ record c {
                yielded = true;
                reconnect_timer = false;
                heartbeat_timer = false;
                watchdog_timer = false;
                socket = none;
                alive = without s c.alive;
              }
            ]) { connected = false })
    at none e = record {
      yielded = refl;
      socket = e;
      timer = refl;
      opened = refl;
      left = λ i m. (m, λ own. absurd (cc));
    }
    at (some s) e = record {
      yielded = refl;
      socket = refl;
      timer = refl;
      opened = refl;
      left = λ i m.
          let r = Mem-filter (λ x. not (x == s)) i c.alive m in
          (r.0, λ own. other_socket i s r.1 (some_injective s i (sym e ∙ own)));
    }

-- From the poll that finds the lease held, until one that finds it free, the connector stays
-- yielded, keeps no socket and no timer to reconnect, and opens no socket, whatever happens:
-- restarts, requests to connect, timers, the watchdog and late events of sockets included. The
-- socket that was its own is destroyed: any socket still alive was alive before the poll and was
-- another one.
pub yields_until_release :
    (c : NodeRxConnector) (es : List ConnectorEvent)
    → any is_release es ≡ false
    → Yielded c (on_connectors es (check_held true c))
yields_until_release c es h = on_connectors-Yielded c es _ h (held-Yielded c)
