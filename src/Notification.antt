-- ===== src/Notification.antt =====
-- Notifications: cpp/Notification.cpp, with the handle of cpp/Handles.hpp.
pub mod Store
pub mod Reading
pub mod Setters
pub mod Queries
pub mod Sound
pub mod Calls
pub mod Histories
pub mod Pausing
pub mod Adding
mod Tests
