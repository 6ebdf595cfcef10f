-- ===== src/Solana.antt =====
-- architectures/decentralized/solana-coordinator: the on-chain program that keeps a coordinator,
-- the clients that joined it, and what they have earned.
pub mod ClientsState
pub mod Instance
pub mod Methods
pub mod Examples
pub mod Treasurer
pub mod Authorizer
pub mod Chain
pub mod Program
