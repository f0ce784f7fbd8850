-- ===== src/Node/Lease/Tests.antt =====
-- A lease under contention, and the theorem at concrete values.
use hop_watch.Prelude.{String, ◌≡◌, refl, true, Option, none, some, List, [], ◌∷◌, arith, is_some}
use hop_watch.Node.Lease.{NodeLease, acquire_node_lease, renew_node_lease, node_lease_holder}
use hop_watch.Node.Lease.Held.{LeaseOp, acquires, renews, releases, after_all, acquire_keeps}

abbrev free : NodeLease
free = record { token = ""; holder = ""; reason = ""; expires_at = none }

abbrev rush : List LeaseOp
rush = acquires "t2" "web" "config" 200 ∷ releases "t2" 300 ∷ renews "t1" 15000 ∷ []

abbrev mine : NodeLease × Option String
mine = acquire_node_lease "t1" "worker" "tx" 100 free

won : mine.1 ≡ some "t1"
unfolding acquire_node_lease
won = refl

acquire_keeps_example :
    ((token who why : String)
      → (acquire_node_lease token who why 45050 (after_all rush mine.0)).1 ≡ none)
    × (is_some (node_lease_holder 45050 (after_all rush mine.0)) ≡ true)
    × ((renew_node_lease "t1" 45050 (after_all rush mine.0)).1 ≡ true)
acquire_keeps_example =
    acquire_keeps "t1" "worker" "tx" 100 45050 free rush won
      (
        (omega arith, omega arith, refl),
        ((omega arith, omega arith, refl), ((omega arith, omega arith, refl), tt)),
      )
      (omega arith)
