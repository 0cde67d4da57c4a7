-- ===== src/Omni.antt =====
-- Devices that speak the Omni protocol over TCP.
pub mod Codec
pub mod Decoder
