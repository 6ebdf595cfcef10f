-- ===== src/Coordinator.antt =====
-- shared/coordinator: the state of a training run and the methods that drive it.
pub mod Model
pub mod Types
pub mod Config
pub mod Rounds
pub mod Lifecycle
pub mod Quorum
pub mod Tick
pub mod Invariant
pub mod Committees
pub mod Members
pub mod Messages
pub mod DataSelection
pub mod Examples
