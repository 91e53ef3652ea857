-- ===== src/Lobby.antt =====
-- The lobby service: lobby/src/models.py, service.py and gateway_handler.py.
pub mod Model
pub mod Monad
pub mod Service
pub mod Operations
pub mod Request
pub mod Handlers
pub mod Sessions
pub mod Gateway
pub mod Rest
pub mod Agreement
pub mod Atomic
pub mod Clean
pub mod LobbyEvents
pub mod SessionEvents
pub mod Transactions
pub mod Rows
pub mod Membership
pub mod Departure
pub mod Codes
pub mod Lost
pub mod Events
pub mod Tests
pub mod RestTests
