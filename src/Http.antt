-- ===== src/Http.antt =====
-- http-client/src, http-server/src and utils/src/http.
pub mod Client
pub mod ClientTransport
pub mod Body
pub mod Transport
pub mod RawServer
pub mod Responses
pub mod Background
pub mod Server
