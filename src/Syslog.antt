-- ===== src/Syslog.antt =====
-- syslog/: RFC 5424 messages and their framing on a stream.
pub mod Framer
pub mod Header
