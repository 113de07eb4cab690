-- ===== src/Http/Responses.antt =====
-- http-server/src/transport/response.rs: the responses that the server makes itself. Each `expect` is on
-- hyper's builder, which takes a known status and header and any body.
use mathlib.Core.List.{◌++◌}
use jsonrpsee.Base.{ℕ}
use jsonrpsee.Base.Text.{Text, codes}
use jsonrpsee.Types.Errors.{error_parse_error}
use jsonrpsee.Types.Request.{CallId, v2}
use jsonrpsee.Types.Response.{Output, failure}

-- A body is a text, or the JSON of an output.
pub data ResponseBody (Value : Type 0) : Type 0 where
  plain : Text → ResponseBody Value
  json : Output Value → ResponseBody Value

pub record HttpResponse (Value : Type 0) : Type 0 where
  pub status : ℕ
  pub content_type : Text
  pub body : ResponseBody Value

module _ {Value : Type 0} where
  -- `from_template`
  unfoldable pub from_template : ℕ → Text → HttpResponse Value
  from_template status body = record {
    status = status;
    content_type = codes "text/plain; charset=utf-8";
    body = plain body;
  }

  unfoldable pub internal_error : Text → HttpResponse Value
  unfolding from_template
  internal_error msg = from_template 500 (codes "Internal Server Error: " ++ msg)

  unfoldable pub service_unavailable : Text → HttpResponse Value
  service_unavailable msg = record {
    status = 503;
    content_type = codes "application/json; charset=utf-8";
    body = plain msg;
  }

  unfoldable pub host_not_allowed : HttpResponse Value
  unfolding from_template
  host_not_allowed = from_template 403 (codes "Provided Host header is not whitelisted.\n")

  unfoldable pub unsupported_content_type : HttpResponse Value
  unfolding from_template
  unsupported_content_type =
      from_template 415
        (codes "Supplied content type is not allowed. Content-Type: application/json is required\n")

  unfoldable pub parse_error : HttpResponse Value
  unfolding error_parse_error
  parse_error = record {
    status = 200;
    content_type = codes "application/json";
    body = json (failure (record { jsonrpc = v2; error = error_parse_error; id = CallId.null }));
  }

  unfoldable pub method_not_allowed : HttpResponse Value
  unfolding from_template
  method_not_allowed =
      from_template 405 (codes "Used HTTP Method is not allowed. POST or OPTIONS is required\n")

  unfoldable pub invalid_allow_origin : HttpResponse Value
  unfolding from_template
  invalid_allow_origin = from_template 403 (
      codes
        "Origin of the request is not whitelisted. CORS headers would not be sent and any side-effects were cancelled as well.\n")

  unfoldable pub invalid_allow_headers : HttpResponse Value
  unfolding from_template
  invalid_allow_headers = from_template 403 (
      codes
        "Requested headers are not allowed for CORS. CORS headers would not be sent and any side-effects were cancelled as well.\n")

  unfoldable pub bad_request : Text → HttpResponse Value
  unfolding from_template
  bad_request msg = from_template 400 msg

  unfoldable pub too_large : Text → HttpResponse Value
  unfolding from_template
  too_large msg = from_template 413 msg
