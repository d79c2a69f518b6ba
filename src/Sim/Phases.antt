-- ===== src/Sim/Phases.antt =====
-- The phases of one tick, api/app/sim/phases. A phase answers `none` where the program raises.
pub mod Scoring
pub mod Combat
pub mod Orders
pub mod Movement
pub mod Energy
pub mod Abilities
pub mod Spells
pub mod Statuses
pub mod Removal
pub mod Resummon
use go_forth.Prelude.{Option, none, some}

infixl 5 ◌>>=◌
abbrev pub ◌>>=◌ {ℓ κ} : {A : Type ℓ} {B : Type κ} → Option A → (A → Option B) → Option B
none >>= f = none
some a >>= f = f a
