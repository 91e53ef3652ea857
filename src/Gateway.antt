-- ===== src/Gateway.antt =====
-- The gateway service: gateway/src/gateway/rate_limit.py, connection_manager.py, router.py and the
-- websocket loop of main.py.
pub mod RateLimit
pub mod Connections
pub mod Router
pub mod Websocket
pub mod Bound
pub mod Index
pub mod Bindings
pub mod Routes
pub mod Loop
pub mod Tests
