-- ===== src/DeviceService.antt =====
-- backend/internal/deviceservice: the requests that change a device.
pub mod Validation
pub mod Update
pub mod Create
pub mod Read
