-- ===== src/Keys.antt =====
-- Key chords: the part of cpp/Bind.cpp that regularises a chord and converts between logical and
-- physical keys.
pub mod Chord
pub mod Form
pub mod Regular
pub mod Convert
pub mod Search
mod Tests
