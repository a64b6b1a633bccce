-- ===== src/Tests.antt =====
-- Concrete runs.
pub mod Layout
pub mod Packing
pub mod Splitting
pub mod Opening
pub mod Windows
pub mod Sending
pub mod Crossing
pub mod Sockets
pub mod Refusing
pub mod Probing
pub mod Pinging
pub mod Playing
pub mod Naming
