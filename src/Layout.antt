-- ===== src/Layout.antt =====
-- Scheme layouts: cpp/SchemeLayout.cpp and cpp/SchemeLayout.hpp.
pub mod Order
pub mod Exchange
pub mod Candidate
pub mod Neighbour
pub mod Geometry
pub mod Boxes
pub mod Grid
pub mod Cells
pub mod Pass
pub mod Fallback
pub mod Reports
pub mod Placement
pub mod Registry
pub mod Names
mod Tests
