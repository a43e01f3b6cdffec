-- ===== src/Store.antt =====
-- The three Zustand stores (apps/web/lib/store).
pub mod Simulation
pub mod Graph
pub mod Candidate
