-- ===== src/Tx.antt =====
-- The transmit subsystem: the decisions on an outbox row, the outbox table and the worker's tick.
pub mod State
pub mod Outbox
pub mod Worker
