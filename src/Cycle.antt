-- ===== src/Cycle.antt =====
-- engine/forward/cycle.py: the draft-and-verify loop of one resident turn.
pub mod Suffix
pub mod Draft
pub mod Turn
pub mod Resident
pub mod Prefill
pub mod Window
pub mod Loop
