-- ===== src/Examples.antt =====
-- The theorems at concrete inputs.
mod Writers
mod Otlps
mod Syslogs
mod Fluents
mod Msgpacks
mod Transports
mod Attrs
mod Lines
