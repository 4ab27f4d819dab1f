-- ===== src/Lobby.antt =====
-- The clients of the lobby: server/processes/lobby/client.h, client.cpp and client_manager.cpp.
pub mod Clients
pub mod Login
pub mod Ticks
pub mod History
pub mod Money
pub mod Saved
pub mod Tables
pub mod Indexed
pub mod Admitted
mod Trusted
pub mod Logins
pub mod Swept
pub mod Offline
pub mod Lives
pub mod Purchases
pub mod Kept
pub mod Survives
pub mod Restored
pub mod Week
pub mod Pages
mod Tests
mod ClientTests
