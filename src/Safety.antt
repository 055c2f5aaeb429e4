-- ===== src/Safety.antt =====
-- What holds of the engine of internal/handlers/engine.go at every moment.
pub mod Slots
pub mod Steps
pub mod Background
pub mod System
pub mod Grants
pub mod Lockdown
pub mod Bootstrap
pub mod Spent
pub mod Replay
pub mod Rounds
pub mod Tokens
pub mod Pass
pub mod Wiring
pub mod Budget
pub mod Quiet
pub mod Work
