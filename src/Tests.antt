-- ===== src/Tests.antt =====
-- Concrete instances of what the development takes as parameters.
pub mod Sockets
