-- ===== src/Otlp/Proto.antt =====
-- The proto3 wire format of otlp/proto.go: the append helpers, and the reading of a response.
pub mod Varint
pub mod Append
pub mod Read
pub mod Scan
pub mod Fields
pub mod Response
