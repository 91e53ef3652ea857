-- ===== src/Storage.antt =====
-- The storage service: storage/src/app.
pub mod Model
pub mod Rows
pub mod Schemas
pub mod Answers
pub mod Common
pub mod Devices
pub mod Lobbies
pub mod Participants
pub mod Measurements
pub mod AnalysisOutputs
pub mod SimulationJobs
pub mod SimulationResults
pub mod Api
pub mod Keys
pub mod Constraints
pub mod Consistency
pub mod Deletes
pub mod Creates
pub mod Patches
pub mod Invariants
pub mod Refused
pub mod RoundTrip
pub mod Upserts
pub mod Orders
pub mod Pages
pub mod NullMeta
pub mod Metadata
mod Tests
