-- ===== src/Match.antt =====
-- The match layer, api/app/match.
mod Samples
mod Tests
mod SessionTests
mod PlanTests
mod ParseTests
pub mod Wire
pub mod Json
pub mod Plan
pub mod Fixtures
pub mod Commands
pub mod Round
pub mod Recorder
pub mod Session
