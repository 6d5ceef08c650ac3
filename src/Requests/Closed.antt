-- ===== src/Requests/Closed.antt =====
-- The status of a request over its life.
pub mod Database
pub mod Ended
pub mod Entitled
pub mod Guard
pub mod Status
pub mod Steps
pub mod Life
pub mod Settled
pub mod Settles
