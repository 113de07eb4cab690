-- ===== src/WsServer.antt =====
-- ws-server/src.
pub mod Transport
pub mod Connection
pub mod RawServer
pub mod Server
