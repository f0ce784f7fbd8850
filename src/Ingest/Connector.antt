-- ===== src/Ingest/Connector.antt =====
-- The connection to the station node as a state machine, src/ingest/nodeConnector.ts: which sockets
-- it opens and closes. Sockets are numbered in the order in which they are opened, and `alive` holds
-- those that have not been destroyed or closed. What is read from and written to a socket is not
-- modelled.
pub mod Yield
pub mod Orphan
mod Tests
use hop_watch.Prelude.{
  ℕ, ◌+◌, ◌*◌, min, Bool, true, false, not, ◌&&◌, ◌||◌, Option, none, some, List, [], ◌∷◌, ltb,
  ◌==◌, if◌then◌else◌, is_some, filter,
}

pub record NodeRxConnector : Type 0 where
  pub socket : Option ℕ
  pub alive : List ℕ
  pub opened : ℕ
  pub connected : Bool
  pub stopped : Bool
  pub yielded : Bool
  pub backoff : ℕ
  pub reconnect_timer : Bool
  pub heartbeat_timer : Bool
  pub watchdog_timer : Bool
  pub lease_timer : Bool
  pub reconnects : ℕ
  pub last_kick_ms : ℕ

abbrev pub resume_ms : ℕ
resume_ms = 250

unfoldable pub clear_socket_timers : NodeRxConnector → NodeRxConnector
clear_socket_timers c = record c { heartbeat_timer = false; watchdog_timer = false }

abbrev pub without : ℕ → List ℕ → List ℕ
without s = filter (λ i. not (i == s))

-- `if (this.socket) { ...; this.socket.destroy(); this.socket = null; }`.
unfoldable pub destroy_socket : NodeRxConnector → NodeRxConnector
unfolding clear_socket_timers
destroy_socket c = elim c.socket [
  | none ↦ c
  | some s ↦ record (clear_socket_timers c) { socket = none; alive = without s c.alive }
]

unfoldable pub connect : NodeRxConnector → NodeRxConnector
connect c =
    if c.stopped || c.yielded
    then c
    else record c { socket = some c.opened; alive = c.opened ∷ c.alive; opened = c.opened + 1 }

unfoldable pub schedule_reconnect : NodeRxConnector → NodeRxConnector
schedule_reconnect c =
    if c.stopped || c.reconnect_timer || c.yielded
    then c
    else record c { reconnect_timer = true; backoff = min (c.backoff * 2) 30000 }

unfoldable pub start : NodeRxConnector → NodeRxConnector
unfolding connect
start c = connect (record c { stopped = false; lease_timer = true })

unfoldable pub stop_connector : NodeRxConnector → NodeRxConnector
unfolding destroy_socket clear_socket_timers
stop_connector c =
    record (destroy_socket (
      clear_socket_timers
        (record c { stopped = true; reconnect_timer = false; lease_timer = false }))) {
          connected = false;
        }

unfoldable pub reconnect_now : NodeRxConnector → NodeRxConnector
unfolding destroy_socket connect
reconnect_now c =
    if c.stopped || c.yielded
    then c
    else connect (record (destroy_socket (record c { reconnect_timer = false; backoff = 1000 })) {
      connected = false;
    })

-- `checkLease` up to the query for the lease's holder.
unfoldable pub check_kick : ℕ → NodeRxConnector → NodeRxConnector
unfolding reconnect_now
check_kick kick_at c =
    if c.stopped || not (ltb c.last_kick_ms kick_at)
    then c
    else if c.yielded
    then record c { last_kick_ms = kick_at }
    else reconnect_now (record c { last_kick_ms = kick_at })

-- The rest of `checkLease`, given whether the lease is held.
unfoldable pub check_held : Bool → NodeRxConnector → NodeRxConnector
unfolding destroy_socket schedule_reconnect
check_held true c = record (destroy_socket (record c { yielded = true; reconnect_timer = false })) {
  connected = false;
}
check_held false c =
    if not c.yielded
    then c
    else let c' : NodeRxConnector = record c { yielded = false; backoff = resume_ms } in
      if not (is_some c'.socket) && not c'.reconnect_timer then schedule_reconnect c' else c'

unfoldable pub on_connect : NodeRxConnector → NodeRxConnector
on_connect c = record c {
  connected = true;
  backoff = 1000;
  watchdog_timer = true;
  heartbeat_timer = true;
}

abbrev pub is_socket : ℕ → Option ℕ → Bool
is_socket s none = false
is_socket s (some t) = t == s

-- The close handler of a socket, which may no longer be the connector's own.
unfoldable pub on_close : ℕ → NodeRxConnector → NodeRxConnector
unfolding clear_socket_timers schedule_reconnect
on_close s c =
    let c' : NodeRxConnector = record (clear_socket_timers c) {
      connected = false;
      alive = without s c.alive;
      socket = if is_socket s c.socket then none else c.socket;
    } in
    if c'.stopped
    then c'
    else if c'.yielded
    then c'
    else schedule_reconnect (record c' { reconnects = c'.reconnects + 1 })

unfoldable pub on_timer : NodeRxConnector → NodeRxConnector
unfolding connect
on_timer c = if c.reconnect_timer then connect (record c { reconnect_timer = false }) else c

-- The watchdog drops a dead socket; its close handler does the rest.
unfoldable pub on_watchdog : NodeRxConnector → NodeRxConnector
on_watchdog c =
    if c.watchdog_timer
    then elim c.socket [
      | none ↦ record c { watchdog_timer = false }
      | some s ↦ record c { watchdog_timer = false; alive = without s c.alive }
    ]
    else c

pub data ConnectorEvent : Type 0 where
  starts stops reconnects_now timer_fires watchdog_fires : ConnectorEvent
  kicked : ℕ → ConnectorEvent
  lease : Bool → ConnectorEvent
  connects closes errs : ℕ → ConnectorEvent

unfoldable pub on_connector : ConnectorEvent → NodeRxConnector → NodeRxConnector
unfolding start stop_connector reconnect_now check_kick check_held on_connect on_close on_timer
    on_watchdog
on_connector starts c = start c
on_connector stops c = stop_connector c
on_connector reconnects_now c = reconnect_now c
on_connector timer_fires c = on_timer c
on_connector watchdog_fires c = on_watchdog c
on_connector (kicked t) c = check_kick t c
on_connector (lease h) c = check_held h c
on_connector (connects s) c = on_connect c
on_connector (closes s) c = on_close s c
on_connector (errs s) c = record c { connected = false }

unfoldable pub on_connectors : List ConnectorEvent → NodeRxConnector → NodeRxConnector
unfolding on_connector
on_connectors [] c = c
on_connectors (e ∷ es) c = on_connectors es (on_connector e c)
