-- ===== src/Node.antt =====
-- The station node: src/db/nodelease.ts and src/lib/nodedb.ts.
pub mod Lease
pub mod Prune
