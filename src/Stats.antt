-- ===== src/Stats.antt =====
-- Figures on nodes, routes and times: src/lib/uptime.ts, topology.ts, time.ts and presence.ts.
pub mod Uptime
pub mod Topology
pub mod Window
pub mod Presence
