-- ===== src/Client.antt =====
-- client/
pub mod Backend
pub mod Discovery
pub mod Lookup
pub mod Config
pub mod Flights
mod Samples
mod Tests
