-- ===== src/WsClient.antt =====
-- ws-client/src.
pub mod Manager
pub mod Processing
pub mod Client
pub mod Frontend
