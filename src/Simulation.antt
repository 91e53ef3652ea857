-- ===== src/Simulation.antt =====
-- The simulation service: simulation/src/sonalyze_simulation.
pub mod Python
pub mod Numbers
pub mod Points
pub mod Polygon
pub mod Inside
pub mod Materials
pub mod Emitters
pub mod Rooms
pub mod Payload
pub mod Placed
pub mod Chain
pub mod Usable
mod Tests
