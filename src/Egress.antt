-- ===== src/Egress.antt =====
-- src/outputs/egress-link-output.cpp: one egress output, which encodes a source and streams and
-- records it.
pub mod Link
pub mod State
pub mod Status
pub mod Pipeline
pub mod Create
pub mod Start
pub mod Monitor
pub mod Step
pub mod Frame
pub mod Carry
pub mod Counters
pub mod Wired
pub mod Opened
pub mod Shows
pub mod Life
pub mod Statistics
pub mod Choices
pub mod Service
pub mod Started
pub mod Safe
