-- ===== src/Attestor.antt =====
-- attestor/src: the oracle that announces events and attests their outcomes.
pub mod Digits
pub mod Attest
pub mod Stored
mod Tests
pub mod Hex
pub mod Client
pub mod Events
