-- ===== src/Node/Lease.antt =====
-- The lease on the station node, src/db/nodelease.ts: one row of a table. Times are milliseconds of
-- the database's clock.
pub mod Held
mod Tests
use hop_watch.Prelude.{
  ℕ, ◌+◌, String, Bool, true, false, Option, none, some, List, [], ◌∷◌, str_eq, leb, if◌then◌else◌,
}

pub record NodeLease : Type 0 where
  pub token : String
  pub holder : String
  pub reason : String
  pub expires_at : Option ℕ

abbrev pub ttl_ms : ℕ
ttl_ms = 45000

-- `expires_at IS NULL OR expires_at <= now`.
abbrev pub is_free : ℕ → NodeLease → Bool
is_free now l = elim l.expires_at [ none ↦ true | some e ↦ leb e now ]

unfoldable pub acquire_node_lease :
    String → String → String → ℕ → NodeLease → NodeLease × Option String
acquire_node_lease token holder reason now l =
    if is_free now l
    then (
      record { token = token; holder = holder; reason = reason; expires_at = some (now + ttl_ms) },
      some token,
    )
    else (l, none)

unfoldable pub renew_node_lease : String → ℕ → NodeLease → NodeLease × Bool
renew_node_lease token now l =
    if str_eq l.token token
    then (record l { expires_at = some (now + ttl_ms) }, true)
    else (l, false)

unfoldable pub release_node_lease : String → ℕ → NodeLease → NodeLease
release_node_lease token now l =
    if str_eq l.token token then record l { expires_at = some now; token = "" } else l

unfoldable pub node_lease_holder : ℕ → NodeLease → Option (String × String)
node_lease_holder now l = if is_free now l then none else some (l.holder, l.reason)

-- One turn of the wait in `withNodeLease`: the answer to the acquisition, `none` where the database
-- fails, and the clock after it.
pub record Attempt : Type 0 where
  pub answer : Option (Option String)
  pub now : ℕ

-- How the wait ends: the lease is held, the node is busy, or the operation runs without a lease.
pub data Wait : Type 0 where
  held : String → Wait
  busy unleased still_waiting : Wait

unfoldable pub wait_for_lease : ℕ → List Attempt → Wait
wait_for_lease deadline [] = still_waiting
wait_for_lease deadline (a ∷ rest) =
    let later = wait_for_lease deadline rest in
    elim a.answer [
      | none ↦ unleased
      | some none ↦ if leb deadline a.now then busy else later
      | some (some token) ↦
          if str_eq token "" then (if leb deadline a.now then busy else later) else held token
    ]
