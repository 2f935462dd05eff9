-- ===== src/Punch.antt =====
-- pkg/punch: the encrypted UDP path between two peers, and the room made of such paths.
pub mod Replay
pub mod Frame
pub mod Candidates
pub mod Codec
pub mod Session
pub mod Roster
pub mod Mux
pub mod Pair
pub mod Room
pub mod Invite
