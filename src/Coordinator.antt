-- ===== src/Coordinator.antt =====
-- lobby/src/measurement_coordinator.py: the sessions of the synchronized measurement protocol.
pub mod Model
pub mod Messages
pub mod Start
pub mod Recording
pub mod Control
pub mod Table
pub mod Cases
pub mod Clients
pub mod Evidence
pub mod Phases
pub mod Participants
pub mod Addressed
pub mod Broadcasts
pub mod Linked
pub mod Progress
pub mod Errors
pub mod Deadlock
pub mod Completion
pub mod Duplicates
pub mod Created
pub mod Ready
pub mod Tests
