-- ===== src/Live.antt =====
-- The live feed and the live map: src/lib/livehub.ts and src/lib/livemap.ts.
pub mod Hub
pub mod Map
