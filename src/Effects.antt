-- ===== src/Effects.antt =====
-- effects/: the effects that message handlers return, their dependency graph and their schedule.
pub mod Effect
pub mod Execute
pub mod Graph
pub mod Schedule
pub mod Optimize
