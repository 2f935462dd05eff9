-- ===== src/Diag.antt =====
-- pkg/diag: whether two people, or a room of them, can reach each other, and which router is in
-- the way.
pub mod Profile
pub mod Mesh
pub mod Experiment
