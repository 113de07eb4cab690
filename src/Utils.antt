-- ===== src/Utils.antt =====
-- utils/src/http: the checks of the headers of an HTTP request.
pub mod Headers
pub mod Hosts
pub mod Cors
pub mod AccessControl
