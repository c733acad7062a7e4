-- ===== src/Device.antt =====
-- The crate `actual`: the device.
pub mod StaConfig
pub mod Wifi
pub mod Events
pub mod Routes
pub mod System
pub mod Start
