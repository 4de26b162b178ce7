-- ===== src/Fluent.antt =====
-- fluent/: the Fluent Forward protocol.
pub mod Framer
pub mod EventTime
pub mod Msgpack
