-- ===== src/Http/Background.antt =====
-- `process_request` of http-server/src/transport/background.rs: what becomes of an HTTP request.
-- Parsing a body and printing an error of hyper are parameters, and what the channel to the server and
-- the channel for the response answer are arguments.
pub mod Gates
use jsonrpsee.Base.{
  ℕ, List, [], ◌∷◌, Option, none, some, Bool, true, false, ◌&&◌, ◌||◌, Result, ok, err,
  if◌then◌else◌,
}
use jsonrpsee.Base.Text.{Text, codes, eq_ignore_ascii_case}
use jsonrpsee.Types.Request.{Request}
use jsonrpsee.Utils.Hosts.{Globs}
use jsonrpsee.Utils.Headers.{HeaderMap, read_header_content_length}
use jsonrpsee.Utils.AccessControl.{
  AccessControl, HeaderValues, deny_host, deny_cors_origin, deny_cors_header,
}
use jsonrpsee.Http.Body
use jsonrpsee.Http.Body.{GenericTransportError, read_response_to_body}
use jsonrpsee.Http.Responses
use jsonrpsee.Http.Responses.{HttpResponse}

-- A request of hyper: whether its method is POST, its headers, and the chunks of its body.
pub record HttpRequest (Byte Foreign : Type 0) : Type 0 where
  pub is_post : Bool
  pub headers : HeaderMap
  pub body : List (Result (List Byte) Foreign)

-- How the channels answer: the server is gone, it drops the request, or it responds.
pub data Reply (Value : Type 0) : Type 0 where
  shut : Reply Value
  dropped : Reply Value
  responded : HttpResponse Value → Reply Value

-- the match on the text of the content type
unfoldable pub json_text : Option Text → Bool
json_text none = false
json_text (some content) =
    eq_ignore_ascii_case content (codes "application/json")
    || eq_ignore_ascii_case content (codes "application/json; charset=utf-8")
    || eq_ignore_ascii_case content (codes "application/json;charset=utf-8")

-- `is_json`, of the first value of the header, which `get` gives
unfoldable pub is_json : List (Option Text) → Bool
unfolding json_text
is_json [] = false
is_json (content_type ∷ others) = json_text content_type

-- What `process_request` does: the response, and the request that goes to the server.
abbrev pub Outcome : Type 0 → Type 0
Outcome Value = HttpResponse Value × Option (Request Value)

module _ {Value : Type 0} where
  -- the end of `process_request`, with the channels
  unfoldable pub forward : Request Value → Reply Value → Outcome Value
  forward rq shut =
      (Responses.internal_error (codes "JSON requests processing channel has shut down"), none)
  forward rq dropped =
      (Responses.internal_error (codes "JSON request send back channel has shut down"), some rq)
  forward rq (responded r) = (r, some rq)

  unfoldable pub parsed : Option (Request Value) → Reply Value → Outcome Value
  unfolding forward
  parsed none reply = (Responses.parse_error, none)
  parsed (some rq) reply = forward rq reply

  module _ {Byte Foreign : Type 0} (parse : List Byte → Option (Request Value))
      (show : Foreign → Text) where
    unfoldable pub after_body :
        Result (List Byte) (GenericTransportError Foreign) → Reply Value → Outcome Value
    unfolding parsed
    after_body (ok bytes) reply = parsed (parse bytes) reply
    after_body (err GenericTransportError.too_large) reply =
        (Responses.too_large (codes "The request was too large"), none)
    after_body (err (GenericTransportError.inner e)) reply =
        (Responses.internal_error (show e), none)

    -- the match on the method
    unfoldable pub proceed : ℕ → HttpRequest Byte Foreign → Reply Value → Outcome Value
    unfolding after_body
    proceed limit rq reply =
        if rq.is_post && is_json (rq.headers.get_all (codes "content-type"))
        then after_body
            (read_response_to_body limit (read_header_content_length rq.headers) rq.body) reply
        else (Responses.method_not_allowed, none)

    module _ {Glob Header : Type 0} (globs : Globs Glob) (values : HeaderValues Header) where
      -- `process_request`
      unfoldable pub process_request :
          AccessControl Glob → ℕ → HttpRequest Byte Foreign → Reply Value → Outcome Value
      unfolding proceed
      process_request ac limit rq reply =
          if deny_host globs ac rq.headers
          then (Responses.host_not_allowed, none)
          else if deny_cors_origin values globs ac rq.headers
          then (Responses.invalid_allow_origin, none)
          else if deny_cors_header values ac rq.headers
          then (Responses.invalid_allow_headers, none)
          else proceed limit rq reply
