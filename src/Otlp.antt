-- ===== src/Otlp.antt =====
-- The OTLP exporter of otlp/.
pub mod Proto
pub mod Envelope
pub mod GrpcStatus
pub mod Options
pub mod Export
pub mod Transport
pub mod Batch
pub mod Attr
pub mod Encoder
