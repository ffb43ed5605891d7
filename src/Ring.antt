-- ===== src/Ring.antt =====
-- The Ring ORAM of src/RingORAM.cpp: parameters, client state, server slots and faults.
pub mod State
pub mod Path
pub mod Bucket
pub mod Write
pub mod Access
pub mod Inv
pub mod Contract
pub mod Setup
