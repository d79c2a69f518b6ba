-- ===== src/Sim.antt =====
-- The battle simulator, api/app/sim.
mod Tests
mod FieldSamples
mod FieldTests
mod OpeningTests
pub mod Types
pub mod Rng
pub mod Geometry
pub mod BattleMap
pub mod Spells
pub mod World
pub mod Zones
pub mod Events
pub mod Effects
pub mod Energy
pub mod Field
pub mod Targeting
pub mod Resolution
pub mod Casting
pub mod UnitTypes
pub mod Formation
pub mod Deployment
pub mod Opening
pub mod Resonance
pub mod Phases
pub mod Tick
pub mod Runner
