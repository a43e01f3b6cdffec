-- ===== src/Simulator.antt =====
-- apps/web/components/simulator: what the components show.
pub mod Parts
pub mod Results
pub mod Cards
pub mod Sharing
mod Tests
