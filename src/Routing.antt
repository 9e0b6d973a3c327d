-- ===== src/Routing.antt =====
-- Routing/CHORDRoutingTable.js.
pub mod Default
pub mod Neighbors
pub mod Table
pub mod Updates
pub mod States
pub mod Merge
pub mod Leave
pub mod Hops
pub mod Fingers
