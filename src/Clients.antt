-- ===== src/Clients.antt =====
-- clients/src: the client of the storage API, and the storage of the manager on top of it.
pub mod Ids
pub mod Codec
pub mod Api
pub mod Events
pub mod Provider
pub mod Http
pub mod Refines
pub mod Unary
pub mod Tests
