-- ===== src/Meshtastic.antt =====
-- The Meshtastic wire layer: stream framing, the classification of receptions, channel keys and the
-- opening of encrypted payloads.
pub mod Frame
pub mod Classify
pub mod Crypto
pub mod Decrypt
