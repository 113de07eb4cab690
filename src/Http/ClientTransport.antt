-- ===== src/Http/ClientTransport.antt =====
-- http-client/src/transport.rs. The crates url, serde and hyper are parameters: how a URL and a response
-- are parsed, how a request is serialized, and what a POST is answered. `F` is the type of their errors.
pub mod Exchanges
use jsonrpsee.Base.{
  ℕ, List, [], ◌∷◌, ◌++◌, Option, none, some, Bool, Result, ok, err, not, ◌&&◌, ltb, length,
  if◌then◌else◌,
}
use jsonrpsee.Base.Text.{Text, text_beq, codes}
use jsonrpsee.Types.Request.{Request}
use jsonrpsee.Types.Response.{Response}
use jsonrpsee.Utils.Headers.{HeaderMap, read_header_content_length}
use jsonrpsee.Http.Body.{GenericTransportError, too_large, inner, read_response_to_body}

-- `Error`
pub data Error (F : Type 0) : Type 0 where
  url : Text → Error F
  serialization : F → Error F
  utf8 : F → Error F
  http : F → Error F
  request_failure : ℕ → Error F
  parse_error : F → Error F
  request_too_large : Error F

-- `From<GenericTransportError<T>> for Error`
unfoldable pub from_generic : {F : Type 0} → GenericTransportError F → Error F
from_generic too_large = request_too_large
from_generic (inner e) = http e

-- `url::Url`: its parser, with the text of its error, and its scheme
pub record Urls (Url : Type 0) : Type 0 where
  pub parse : Text → Result Url Text
  pub scheme : Url → Text

-- `HttpTransportClient`, with the limit of its configuration
pub record HttpTransportClient (Url : Type 0) : Type 0 where
  pub target : Url
  pub max_request_body_size : ℕ

-- What hyper returns for a POST
pub record HttpReply (Byte F : Type 0) : Type 0 where
  pub status : ℕ
  pub headers : HeaderMap
  pub body : List (Result (List Byte) F)

-- `StatusCode::is_success`
abbrev pub is_success : ℕ → Bool
is_success status = not (ltb status 200) && ltb status 300

module _ {Url F : Type 0} (urls : Urls Url) where
  -- `HttpTransportClient::new`, for a parsed URL
  unfoldable pub new_parsed : Result Url Text → ℕ → Result (HttpTransportClient Url) (Error F)
  new_parsed (err e) limit = err (url (codes "Invalid URL: " ++ e))
  new_parsed (ok target) limit =
      if text_beq (urls.scheme target) (codes "http")
      then ok (record { target = target; max_request_body_size = limit })
      else err (url (codes "URL scheme not supported, expects 'http'"))

  -- `HttpTransportClient::new`
  unfoldable pub new : Text → ℕ → Result (HttpTransportClient Url) (Error F)
  unfolding new_parsed
  new target limit = new_parsed (urls.parse target) limit

module _ {Byte F : Type 0} where
  -- `send_request`, after the POST
  unfoldable pub received : Result (HttpReply Byte F) F → Result (HttpReply Byte F) (Error F)
  received (err e) = err (http e)
  received (ok reply) =
      if is_success reply.status then ok reply else err (request_failure reply.status)

module _ {Url Byte F : Type 0} where
  -- `send_request`, after `to_vec`. `posts` is the answer to the POST of a body to a target; the body
  -- that is posted, if there is one, is returned too.
  unfoldable pub post :
      (Url → List Byte → Result (HttpReply Byte F) F)
      → Result (List Byte) F
      → HttpTransportClient Url
      → Result (HttpReply Byte F) (Error F) × Option (List Byte)
  unfolding received
  post posts (err e) c = (err (serialization e), none)
  post posts (ok body) c =
      if ltb c.max_request_body_size (length body)
      then (err request_too_large, none)
      else (received (posts c.target body), some body)

module _ {Byte Value F : Type 0} (from_slice : List Byte → Result (Response Value) F) where
  -- the end of `send_request_and_wait_for_response`, after the body is read
  unfoldable pub parsed :
      Result (List Byte) (GenericTransportError F) → Result (Response Value) (Error F)
  unfolding from_generic
  parsed (err e) = err (from_generic e)
  parsed (ok bytes) = elim (from_slice bytes) [ ok r ↦ ok r | err e ↦ err (parse_error e) ]

  -- the same, after `send_request`
  unfoldable pub read_reply :
      ℕ → Result (HttpReply Byte F) (Error F) → Result (Response Value) (Error F)
  unfolding parsed read_response_to_body
  read_reply limit (err e) = err e
  read_reply limit (ok reply) =
      parsed (read_response_to_body limit (read_header_content_length reply.headers) reply.body)

module _ {Url Byte Value F : Type 0} (to_vec : Request Value → Result (List Byte) F)
    (posts : Url → List Byte → Result (HttpReply Byte F) F) where
  -- `HttpTransportClient::send_request`
  unfoldable pub send_request :
      Request Value
      → HttpTransportClient Url
      → Result (HttpReply Byte F) (Error F) × Option (List Byte)
  unfolding post
  send_request rq c = post posts (to_vec rq) c

  -- `HttpTransportClient::send_notification`
  unfoldable pub send_notification :
      Request Value → HttpTransportClient Url → Result (Unit {0}) (Error F) × Option (List Byte)
  unfolding send_request
  send_notification rq c =
      let (r, posted) = send_request rq c in
      elim r [ ok reply ↦ (ok tt, posted) | err e ↦ (err e, posted) ]

  -- `HttpTransportClient::send_request_and_wait_for_response`
  unfoldable pub send_request_and_wait_for_response :
      (List Byte → Result (Response Value) F)
      → Request Value
      → HttpTransportClient Url
      → Result (Response Value) (Error F) × Option (List Byte)
  unfolding send_request read_reply
  send_request_and_wait_for_response from_slice rq c =
      let (r, posted) = send_request rq c in
      (read_reply from_slice c.max_request_body_size r, posted)
