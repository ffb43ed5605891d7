-- ===== src/Tests.antt =====
-- Runs of the development's theorems on small concrete inputs.
mod EpochRuns
mod SubEpochRuns
mod RingRuns
mod ReadRuns
mod Samples
mod SetupRuns
mod DispatchRuns
mod ThreadRuns
mod OramRuns
mod OramEpoch
mod PartitionRuns
mod PlacementRuns
