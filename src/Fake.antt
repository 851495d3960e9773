-- ===== src/Fake.antt =====
-- fake/
mod Tables
pub mod Machinery
pub mod Resources
pub mod Cluster
