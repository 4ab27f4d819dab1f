-- ===== src/Net.antt =====
-- Packets of the network library: server/water/net/packet.cpp and tcp_packet.cpp.
pub mod Packet
pub mod Tcp
pub mod Frames
pub mod Buffer
mod Places
mod Carries
mod BufferTests
mod Tests
