-- ===== src/Api.antt =====
-- The storage API server, storage/api/src: request handlers, the nonce list and the signature
-- check in front of them.
pub mod Json
pub mod Http
pub mod Contracts
pub mod Events
pub mod Router
pub mod Auth
pub mod Consistent
pub mod Interleaved
pub mod Tests
