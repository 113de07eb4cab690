-- ===== src/Types.antt =====
-- types/src/jsonrpc and types/src/error.rs: the data that the other parts exchange. The type
-- `Value` of a JSON value (serde_json) is a parameter throughout.
pub mod Codes
pub mod Errors
pub mod Params
pub mod Request
pub mod Response
