-- ===== src/Vita.antt =====
-- The VITA radio parts of src/vita and include/graphx/vita.
pub mod Device
pub mod Spectrum
