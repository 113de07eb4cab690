-- ===== src/Types/Errors.antt =====
-- `jsonrpc::Error` of types/src/jsonrpc/error.rs, and `Error` of types/src/error.rs.
use jsonrpsee.Base.{String, Option, none}
use jsonrpsee.Types.Codes.{
  ErrorCode, description, parse_error, invalid_request, method_not_found, invalid_params,
  internal_error,
}

pub record Error (Value : Type 0) : Type 0 where
  pub code : ErrorCode
  pub message : String
  pub payload : Option Value

module _ {Value : Type 0} where
  -- `Error::new`, also `From<ErrorCode> for Error`
  unfoldable pub error_new : ErrorCode → Error Value
  unfolding description
  error_new c = record { code = c; message = description c; payload = none }

  -- `Error::invalid_request`
  unfoldable pub error_invalid_request : Error Value
  unfolding error_new
  error_invalid_request = error_new invalid_request

  -- `Error::method_not_found`
  unfoldable pub error_method_not_found : Error Value
  unfolding error_new
  error_method_not_found = error_new method_not_found

  -- `Error::parse_error`
  unfoldable pub error_parse_error : Error Value
  unfolding error_new
  error_parse_error = error_new parse_error

  -- `Error::invalid_params`
  unfoldable pub error_invalid_params : String → Error Value
  error_invalid_params message = record { code = invalid_params; message = message; payload = none }

  -- `Error::internal_error`
  unfoldable pub error_internal_error : Error Value
  unfolding error_new
  error_internal_error = error_new internal_error

  -- `Error::invalid_version`
  unfoldable pub error_invalid_version : Error Value
  error_invalid_version = record {
    code = invalid_request;
    message = "Unsupported JSON-RPC protocol version";
    payload = none;
  }

-- `Error` of types/src/error.rs. `Foreign` is the type of the errors of other crates: of the
-- transport, of a channel, of the JSON parser.
pub data ClientError (Value Foreign : Type 0) : Type 0 where
  transport_error : Foreign → ClientError Value Foreign
  request : Error Value → ClientError Value Foreign
  subscription : String → String → ClientError Value Foreign
  internal : Foreign → ClientError Value Foreign
  parse_failure : Foreign → ClientError Value Foreign
  invalid_subscription_id : ClientError Value Foreign
  invalid_request_id : ClientError Value Foreign
  duplicate_request_id : ClientError Value Foreign
  method_already_registered : String → ClientError Value Foreign
  ws_request_timeout : ClientError Value Foreign
  custom : String → ClientError Value Foreign
