-- ===== src/Parsing.antt =====
-- src/qwasar_runtime/parsing.py: what reads a model's answer and checks the messages and the tools of
-- a request. A text is the list of its code points.
pub mod Feed
pub mod Json
pub mod Schema
pub mod Tools
pub mod Parts
pub mod Messages
pub mod Calls
pub mod Coerce
pub mod Finish
