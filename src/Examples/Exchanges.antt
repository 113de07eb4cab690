-- ===== src/Examples/Exchanges.antt =====
-- A request of http-client/src/transport.rs, with numbers for bytes and URLs.
use jsonrpsee.Base.{ℕ, List, [], ◌∷◌, Result, ok, ◌≡◌, ◌↔◌}
use jsonrpsee.Types.Request.{Request}
use jsonrpsee.Types.Response.{Response}
use jsonrpsee.Http.ClientTransport.{
  HttpTransportClient, HttpReply, send_request_and_wait_for_response,
}
use jsonrpsee.Http.ClientTransport.Exchanges.{Exchanged, wait_for_response_iff}
use jsonrpsee.Examples.Calls.{three_calls}

abbrev client : HttpTransportClient ℕ
client = record { target = 80; max_request_body_size = 4 }

abbrev to_vec : Request ℕ → Result (List ℕ) ℕ
to_vec rq = ok (1 ∷ 2 ∷ [])

abbrev posts : ℕ → List ℕ → Result (HttpReply ℕ ℕ) ℕ
posts target body = ok (record {
  status = 200;
  headers = record { keys = []; get_all = λ name. [] };
  body = ok (3 ∷ []) ∷ ok (4 ∷ []) ∷ [];
})

abbrev from_slice : List ℕ → Result (Response ℕ) ℕ
from_slice bytes = ok (Response.batch [])

wait_for_response_iff_example :
    ((send_request_and_wait_for_response to_vec posts from_slice three_calls client).0
      ≡ ok (Response.batch []))
    ↔ Exchanged to_vec posts from_slice three_calls client (Response.batch [])
wait_for_response_iff_example =
    wait_for_response_iff to_vec posts from_slice three_calls client (Response.batch [])
