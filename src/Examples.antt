-- ===== src/Examples.antt =====
-- Concrete inputs for the theorems, and runs of the model on them.
pub mod Data
pub mod Quota
pub mod Server
pub mod Runs
pub mod Web
pub mod Waiting
pub mod Visits
pub mod Pages
