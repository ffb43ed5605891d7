-- ===== src/Epoch.antt =====
-- The transaction epoch of src/Queries_Receiving.cpp: intake, conflicts, deduplication, results.
pub mod Types
pub mod Intake
pub mod Conflict
pub mod Dedup
pub mod SubEpochs
