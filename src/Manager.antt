-- ===== src/Manager.antt =====
-- dlc-link-manager/src/lib.rs: the manager that creates contracts and moves them through their
-- states.
pub mod Types
pub mod Monad
pub mod Peers
pub mod Messages
pub mod Checks
pub mod Tests
