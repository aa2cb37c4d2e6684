-- ===== src/Contracts/Tests.antt =====
-- Concrete runs of the contracts, on concrete stand-ins for the code that they call.
pub mod Ledger
pub mod GatewayTests
pub mod PartsTests
pub mod PaidTests
