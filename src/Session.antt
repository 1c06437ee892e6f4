-- ===== src/Session.antt =====
-- The session server (Source/SessionServer).
pub mod Packet
pub mod User
pub mod DoubleBuffer
pub mod UserManager
pub mod PacketManager
pub mod DbAgent
pub mod ClientInfo
pub mod IocpServer
