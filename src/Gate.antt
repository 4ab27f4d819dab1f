-- ===== src/Gate.antt =====
-- The clients of the gateway: server/processes/gateway/client_manager.h and client_manager.cpp.
pub mod Clients
pub mod Login
pub mod Announce
pub mod Checked
pub mod Ccid
mod Tests
