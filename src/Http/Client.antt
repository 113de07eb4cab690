-- ===== src/Http/Client.antt =====
-- `HttpClient` of http-client/src/client.rs. What the transport answers to a request is an argument.
pub mod Replies
use Prim.Native.String
use jsonrpsee.Base.{
  ℕ, zero, suc, ◌+◌, ◌/◌, ◌%◌, String, List, [], ◌∷◌, ◌++◌, Bool, true, false, Result, ok, err,
  map_err, ltb, if◌then◌else◌, nat_eq, ◌==◌,
}
use jsonrpsee.Types.Errors.{Error, ClientError}
use jsonrpsee.Types.Params.{Params}
use jsonrpsee.Types.Request.{Request, Call, MethodCall, Notification, CallId, v2}
use jsonrpsee.Types.Response.{Output, Response, output_id, output_value}
use jsonrpsee.Batches.{u64_mod}

-- The decimal digits of a number, as `format!` writes them. Twenty are enough for a `u64`.
unfoldable pub decimal : ℕ → ℕ → String
decimal zero n = ""
decimal (suc fuel) n =
    let rest = decimal fuel (n / 10) in
    let digit = String.slice "0123456789" (n % 10) (n % 10 + 1) in
    if ltb n 10 then digit else (String.◌++◌ rest digit)

-- The client's counter of requests, and what it sent.
pub record HttpClient (Value : Type 0) : Type 0 where
  pub request_id : ℕ
  pub sent : List (Request Value)

module _ {Value Foreign : Type 0} where
  -- the match in `process_response`
  unfoldable pub check_id :
      CallId → ℕ → Result Value (Error Value) → Result Value (ClientError Value Foreign)
  check_id (CallId.num n) expected r =
      if n == expected
      then map_err (λ e. ClientError.request e) r
      else err ClientError.invalid_request_id
  check_id CallId.null expected r = err ClientError.invalid_request_id
  check_id (CallId.str s) expected r = err ClientError.invalid_request_id

  -- `HttpClient::process_response`
  unfoldable pub process_response : Output Value → ℕ → Result Value (ClientError Value Foreign)
  unfolding check_id output_id output_value
  process_response o expected = check_id (output_id o) expected (output_value o)

  -- the match in `request`
  unfoldable pub receive :
      ℕ → Result (Response Value) Foreign → Result Value (ClientError Value Foreign)
  unfolding process_response decimal
  receive id (err f) = err (ClientError.transport_error f)
  receive id (ok (Response.single o)) = process_response o id
  receive id (ok (Response.batch os)) =
      err (ClientError.custom "Server replied with batch response to a single request")
  receive id (ok (Response.notif n)) = err (
      ClientError.custom
        (String.◌++◌ "Server replied with notification response to request ID: " (decimal 20 id)))

  -- `HttpClient::request`
  unfoldable pub request :
      String
      → Params Value
      → Result (Response Value) Foreign
      → HttpClient Value
      → Result Value (ClientError Value Foreign) × HttpClient Value
  unfolding receive
  request method params answer c = (
    receive c.request_id answer,
    record {
      request_id = (c.request_id + 1) % u64_mod;
      sent =
          c.sent
          ++ (Request.single (
                Call.method_call (record {
                  jsonrpc = v2;
                  method = method;
                  params = params;
                  id = CallId.num c.request_id;
                }))
              ∷ []);
    },
  )

  -- `HttpClient::notification`
  unfoldable pub notification :
      String
      → Params Value
      → Result (Unit {0}) Foreign
      → HttpClient Value
      → Result (Unit {0}) (ClientError Value Foreign) × HttpClient Value
  notification method params answer c = (
    map_err (λ f. ClientError.transport_error f) answer,
    record c {
      sent =
          c.sent
          ++ (Request.single
                (Call.notification (record { jsonrpc = v2; method = method; params = params }))
              ∷ []);
    },
  )
