-- ===== src/Core.antt =====
-- shared/core: the containers and the hashing that the coordinator is built on.
pub mod Hashing
pub mod Bloom
pub mod SwapOrNot
pub mod Examples
pub mod FixedVec
pub mod Shuffle
pub mod Merkle
pub mod Strings
pub mod Utf8
