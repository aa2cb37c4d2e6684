-- ===== src/Solana.antt =====
-- The Solana side: the on-chain program (solana/program), the client library (solana/gateway-ts) and the
-- gatekeeper library (solana/gatekeeper-lib).
pub mod Web3
pub mod Seed
pub mod Token
pub mod Address
pub mod Integration
pub mod Query
pub mod Program
pub mod Gatekeeper
pub mod Agreement
pub mod Instruction
pub mod Tests
