-- ===== src/Ingest/Connector/Tests.antt =====
-- Event sequences of the connector, and the theorems at concrete values.
use hop_watch.Prelude.{◌≡◌, refl, true, some, List, [], ◌∷◌, arith}
use hop_watch.Ingest.Connector.{
  watchdog_fires, ConnectorEvent, starts, reconnects_now, timer_fires, kicked, closes, check_held,
  on_connectors,
}
use hop_watch.Ingest.Connector.Yield.{Yielded, yields_until_release}
use hop_watch.Ingest.Connector.Orphan.{connected_by, reconnect_orphans}

abbrev events : List ConnectorEvent
events = starts ∷ reconnects_now ∷ timer_fires ∷ watchdog_fires ∷ kicked 5 ∷ closes 1 ∷ []

yields_until_release_example :
    Yielded (connected_by 1 2) (on_connectors events (check_held true (connected_by 1 2)))
yields_until_release_example = yields_until_release (connected_by 1 2) events refl

reconnect_orphans_example :
    ((on_connectors (reconnects_now ∷ closes 1 ∷ timer_fires ∷ []) (connected_by 1 2)).alive
      ≡ 3 ∷ 2 ∷ [])
    × ((on_connectors (reconnects_now ∷ closes 1 ∷ timer_fires ∷ []) (connected_by 1 2)).socket
        ≡ some 3)
    × ((on_connectors
          (reconnects_now ∷ closes 1 ∷ timer_fires ∷ closes 2 ∷ [])
          (connected_by 1 2)).socket
        ≡ some 3)
    × ((on_connectors
          (reconnects_now ∷ closes 1 ∷ timer_fires ∷ closes 2 ∷ [])
          (connected_by 1 2)).reconnect_timer
        ≡ true)
reconnect_orphans_example = reconnect_orphans 1 2 (omega arith)
