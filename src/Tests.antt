-- ===== src/Tests.antt =====
-- The properties at concrete inputs.
pub mod Machine
mod Turns
mod Parts
mod Streams
mod Pictures
mod Sessions
mod Requests
mod Service
mod Answers
mod Services
mod Chats
mod Endings
