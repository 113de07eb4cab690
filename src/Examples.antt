-- ===== src/Examples.antt =====
-- Concrete runs of the models, with numbers for the values of JSON.
pub mod Calls
pub mod Servers
pub mod Clients
pub mod Https
pub mod Texts
pub mod Handlers
pub mod Connections
pub mod Frontends
pub mod Exchanges
