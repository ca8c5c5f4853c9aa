-- ===== src/Policy.antt =====
-- policy.c: which node a client should use, and when it is made to move.
pub mod Candidate
pub mod Admission
pub mod Roam
pub mod Kick
pub mod Kept
