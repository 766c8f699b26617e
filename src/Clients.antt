-- ===== src/Clients.antt =====
-- pkg/clients: the interfaces that the controllers use to reach the edge platform, and the test
-- for its errors.
pub mod Errors
pub mod Interface
