-- ===== src/Fsm.antt =====
-- src/fsm/fsm.c: the state machine of the daemon.
pub mod Kept
pub mod Actions
pub mod Transition
pub mod Frames
pub mod Running
pub mod Invariant
pub mod Rounds
pub mod Branches
pub mod Safety
pub mod Total
pub mod Restored
