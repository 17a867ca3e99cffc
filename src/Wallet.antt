-- ===== src/Wallet.antt =====
-- wallet/src: the router wallet, which offers the contracts.
pub mod Payout
pub mod World
pub mod Attestors
pub mod Notices
pub mod Offers
pub mod Info
pub mod Server
pub mod Retry
pub mod Startup
mod Tests
