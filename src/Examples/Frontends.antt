-- ===== src/Examples/Frontends.antt =====
-- A request of the user of ws-client/src/client.rs, with numbers for the channels and the values.
use jsonrpsee.Base.{
  ℕ, [], ◌∷◌, ◌++◌, Option, none, some, true, false, Result, ok, err, ◌≡◌, ◌↔◌, ◌⊎◌, refl, nat_eq,
}
use jsonrpsee.Base.Dict
use jsonrpsee.Types.Errors.{ClientError}
use jsonrpsee.Types.Params.{Params}
use jsonrpsee.Types.Request.{CallId, v2, as_number}
use jsonrpsee.Types.Response.{Output, output_id}
use jsonrpsee.WsClient.Client.{Task, terminated, FrontToBack, and_then, on_front, on_response}
use jsonrpsee.WsClient.Processing.{World}
use jsonrpsee.WsClient.Frontend.{WsClient, Waited, received, request}
use jsonrpsee.WsClient.Frontend.Timeouts.{request_iff, timed_out-terminates}

abbrev client : WsClient ℕ ℕ ℕ
client = record { to_back = []; request_timeout = some 10 }

abbrev from_value : ℕ → Result ℕ ℕ
from_value n = ok n

request_iff_example :
    ((request {P = ℕ} from_value 0 "sum" Params.none 31 none false (received (ok 5)) client).0
      ≡ ok 5)
    ↔ ((◌≡◌ {A = Option ℕ} none none)
        × ((client.request_timeout ≡ none) ⊎ (false ≡ false))
        × ((v : ℕ) × (◌≡◌ {A = Waited (Result ℕ (ClientError ℕ ℕ))}
              (received (ok 5))
              (received (ok v)))
            × (from_value v ≡ ok 5)))
request_iff_example =
    request_iff from_value 0 "sum" Params.none 31 none false (received (ok 5)) client 5

abbrev task : Task ℕ ℕ ℕ ℕ ℕ
task = record {
  manager = record { requests = []; subscriptions = [] };
  request_id = 2;
  sent = [];
  delivered = [];
}

abbrev here : World ℕ ℕ
here = record { failure = none; listening = true; accepts = true; channel = 40 }

abbrev away : World ℕ ℕ
away = record here { listening = false }

abbrev response : Output ℕ
response = Output.success (record { jsonrpc = v2; result = 5; id = CallId.num 2 })

timed_out-terminates_example :
    (request {P = ℕ} from_value 0 "sum" Params.none 31 none true (received (ok 5)) client ≡ (
      err ClientError.ws_request_timeout,
      record client {
        to_back = client.to_back ++ (FrontToBack.start_request "sum" Params.none 31 ∷ []);
      },
    ))
    × ((t' : Task ℕ ℕ ℕ ℕ ℕ) × (and_then
            (on_front (λ s. none) (some (FrontToBack.start_request "sum" Params.none 31)) here task)
            (on_response (λ v. none) response away)
          ≡ terminated t'))
unfolding Dict.get as_number output_id
timed_out-terminates_example =
    timed_out-terminates from_value 0 "sum" Params.none 31 (λ s. none) (λ v. none) (received (ok 5))
      client 10 response here away task refl refl refl refl refl
