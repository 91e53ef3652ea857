-- ===== src/Measurement.antt =====
-- The measurement service: measurement/src/app.
pub mod Jobs
pub mod Uploads
mod Tests
