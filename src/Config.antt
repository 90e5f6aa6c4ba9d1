-- ===== src/Config.antt =====
-- Values that the configuration gives to the compositor: cpp/Config.cpp.
pub mod Device
pub mod MonitorRules
pub mod Values
pub mod Animations
