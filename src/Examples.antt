-- ===== src/Examples.antt =====
-- Concrete databases, and the theorems at them.
mod Data
mod Commands
mod Workers
mod Webhooks
mod Frames
mod Reports
mod Maintenance
mod Service
mod Devices
mod Registration
