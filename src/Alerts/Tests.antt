-- ===== src/Alerts/Tests.antt =====
-- A reconciliation of three alerts, and the theorem at concrete values.
use hop_watch.Prelude.{String, ◌≡◌, refl, true, false, List, [], ◌∷◌, map}
use hop_watch.Alerts.{AlertRow, reconcile, open_keys, insert_fired, resolve_key, resolve_gone}
use hop_watch.Alerts.Reconciled.{is_open, reconcile_lem}

abbrev row : String → String → AlertRow
row r k = record { rule_id = r; fired_key = k; resolved = false }

abbrev rows : List AlertRow
rows = row "quiet" "n1" ∷ row "quiet" "n2" ∷ row "low" "n1" ∷ []

reconcile_run :
    map (λ r. r.resolved) (reconcile false "quiet" ("n2" ∷ "n3" ∷ []) rows).0
    ≡ true ∷ false ∷ false ∷ false ∷ []
unfolding reconcile open_keys insert_fired resolve_gone resolve_key
reconcile_run = refl

reconcile_lem_example :
    (is_open "quiet" "n1" (reconcile false "quiet" ("n2" ∷ "n3" ∷ []) rows).0 ≡ false)
    × (is_open "quiet" "n1" (reconcile true "quiet" ("n2" ∷ "n3" ∷ []) rows).0 ≡ true)
    × (is_open "low" "n1" (reconcile true "quiet" ("n2" ∷ "n3" ∷ []) rows).0 ≡ true)
    × ((reconcile true "quiet"
          ("n2" ∷ "n3" ∷ [])
          (reconcile true "quiet" ("n2" ∷ "n3" ∷ []) rows).0).1
        ≡ 0)
reconcile_lem_example = reconcile_lem true "quiet" "low" "n1" ("n2" ∷ "n3" ∷ []) rows refl
