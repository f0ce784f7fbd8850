-- ===== src/Ingest/Pipeline.antt =====
-- How one delivery is stored, src/ingest/pipeline.ts: the envelope, the statements and their
-- tables, what each part of `applyEnvelope` writes, and `applyEnvelope` itself.
pub mod Envelope
pub mod Statements
pub mod Nodes
pub mod Identity
pub mod Links
pub mod Side
pub mod Decoded
pub mod Rows
pub mod Arrival
pub mod Packets
pub mod Receptions
pub mod Traced
pub mod Db
pub mod Steps
pub mod Apply
mod Tally
pub mod Keyed
pub mod Counts
pub mod Kept
pub mod Counted
pub mod Claimed
mod Marked
pub mod Stored
pub mod Once
pub mod Written
pub mod Events
pub mod Keys
pub mod Again
mod Revisited
pub mod Redelivered
pub mod Spoof
pub mod Linked
pub mod Named
pub mod Newness
mod Tests
mod LinkTests
