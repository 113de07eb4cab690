-- ===== src/Examples/Clients.antt =====
-- Concrete states of the clients (ws-client/src, http-client/src), with numbers for the channels.
use jsonrpsee.Base.{
  ◌⊎◌, ◌↔◌, ◌<◌, ◌≤◌, List, Result, ℕ, [], ◌∷◌, ◌++◌, Option, none, some, true, ok, err, ◌≡◌, refl,
  map_err, nat_eq,
}
use jsonrpsee.Base.Dict
use jsonrpsee.Base.Dict.{Dict}
use jsonrpsee.Types.Errors.{ClientError}
use jsonrpsee.Types.Params.{Params}
use jsonrpsee.Types.Request.{CallId, v2, as_number}
use jsonrpsee.Types.Response.{Output, Response, SubscriptionId, output_id, output_value}
use jsonrpsee.Http.Client
use jsonrpsee.Http.Client.{HttpClient}
use jsonrpsee.Http.Client.Replies.{Succeeds, request-Succeeds}
use jsonrpsee.Http.Body.{read_response_to_body, too_large, or_zero}
use jsonrpsee.Http.Body.Bounds.{Reading, read_response_to_body-Reading}
use jsonrpsee.WsClient.Manager.{
  RequestManager, Kind, subscription_id_eq, insert_subscription, new, insert_pending_call,
  complete_pending_call, complete_call_at,
}
use jsonrpsee.WsClient.Manager.Links.{
  Linked, new-Linked, insert_pending_call-Linked, insert_subscription-Linked,
}
use jsonrpsee.WsClient.Client.{
  Task, running, terminated, FrontToBack, and_then, on_front, on_back, on_response,
}
use jsonrpsee.WsClient.Processing.{
  World, process_response, process_numbered, process_status, answer_call, call_result,
}
use jsonrpsee.WsClient.Processing.Once.{Settles, process_response-Settles, process_response-twice}
use jsonrpsee.WsClient.Client.Rounds.{FlowLinked, on_front-Linked, on_back-Linked}
use jsonrpsee.WsClient.Client.Calls.{call-round, waiting_task}
use jsonrpsee.WsClient.Client.Unsubscribed.{closed_task, unsubscribed-terminates}

-- Request 0 is the subscription 7, request 1 waits for its response.
abbrev manager : RequestManager ℕ ℕ ℕ
manager = record {
  requests = (0, Kind.subscription 20 "unsubscribe") ∷ (1, Kind.pending_method_call 30) ∷ [];
  subscriptions = (SubscriptionId.num 7, 0) ∷ [];
}

manager-Linked : Linked manager
unfolding Dict.get Dict.insert new insert_subscription insert_pending_call
manager-Linked =
    insert_pending_call-Linked 1 30
      (insert_subscription 0 (SubscriptionId.num 7) 20 "unsubscribe" new).1
      (insert_subscription-Linked 0 (SubscriptionId.num 7) 20 "unsubscribe" new new-Linked)

abbrev world : World ℕ ℕ
world = record { failure = none; listening = true; accepts = true; channel = 40 }

abbrev task : Task ℕ ℕ ℕ ℕ ℕ
task = record { manager = manager; request_id = 2; sent = []; delivered = [] }

-- the response `5` to a request
abbrev response : ℕ → Output ℕ
response id = Output.success (record { jsonrpc = v2; result = 5; id = CallId.num id })

abbrev parse : ℕ → Option SubscriptionId
parse v = some (SubscriptionId.num v)

abbrev render : SubscriptionId → Option ℕ
render (SubscriptionId.num n) = some n
render (SubscriptionId.str s) = none

on_front-Linked_example :
    FlowLinked
      (on_front render (some (FrontToBack.subscription_closed (SubscriptionId.num 7))) world task)
on_front-Linked_example =
    on_front-Linked render (some (FrontToBack.subscription_closed (SubscriptionId.num 7))) world
      task manager-Linked

on_back-Linked_example :
    FlowLinked (on_back parse (some (ok (Response.batch (response 1 ∷ [])))) (λ k. world) task)
on_back-Linked_example =
    on_back-Linked parse (some (ok (Response.batch (response 1 ∷ [])))) (λ k. world) task
      manager-Linked

process_response-Settles_example :
    Settles 1 manager (process_response {F = ℕ} parse (response 1) world manager)
unfolding as_number output_id
process_response-Settles_example = process_response-Settles parse (response 1) world manager 1 refl

process_response-twice_example :
    process_response {F = ℕ} parse
      (response 1)
      world
      (record manager { requests = Dict.remove manager.requests 1 })
    ≡ some (
      record manager { requests = Dict.remove manager.requests 1 },
      [],
      err ClientError.invalid_request_id,
    )
unfolding as_number output_id output_value process_response process_numbered process_status
    complete_pending_call complete_call_at answer_call Dict.get Dict.remove
process_response-twice_example =
    process_response-twice parse (response 1) (response 1) world world manager
      (
        record manager { requests = Dict.remove manager.requests 1 },
        call_result 30 (ok 5) ∷ [],
        ok none,
      )
      1 refl refl refl

call-round_example :
    and_then
      (on_front render (some (FrontToBack.start_request "sum" Params.none 31)) world task)
      (on_response parse (response 2) world)
    ≡ running (record (waiting_task "sum" Params.none 31 task) {
      manager = task.manager;
      delivered =
          task.delivered
          ++ (call_result 31 (map_err (λ e. ClientError.request e) (output_value (response 2)))
              ∷ []);
    })
unfolding Dict.get as_number output_id
call-round_example =
    call-round render parse "sum" Params.none 31 (response 2) world world task refl refl refl refl

unsubscribed-terminates_example :
    (on_front render (some (FrontToBack.subscription_closed (SubscriptionId.num 7))) world task
      ≡ running (closed_task (SubscriptionId.num 7) 0 "unsubscribe" 7 task))
    × (Dict.get (closed_task (SubscriptionId.num 7) 0 "unsubscribe" 7 task).manager.requests 2
        ≡ none)
    × (on_response parse
          (response 2)
          world
          (closed_task (SubscriptionId.num 7) 0 "unsubscribe" 7 task)
        ≡ terminated (closed_task (SubscriptionId.num 7) 0 "unsubscribe" 7 task))
unfolding Dict.get as_number output_id
unsubscribed-terminates_example =
    unsubscribed-terminates render parse (SubscriptionId.num 7) 0 20 "unsubscribe" 7 (response 2)
      world world task refl refl refl refl refl refl

-- two chunks, the second of which is too much for a limit of three
abbrev chunks : List (Result (List ℕ) ℕ)
chunks = ok (1 ∷ 2 ∷ []) ∷ ok (3 ∷ 4 ∷ []) ∷ []

abbrev http_client : HttpClient ℕ
http_client = record { request_id = 4; sent = [] }

read_response_to_body-Reading_example :
    ((3 < or_zero (some 2))
      × (read_response_to_body {Foreign = ℕ} 3 (some 2) chunks ≡ err too_large))
    ⊎ ((or_zero (some 2) ≤ 3)
        × Reading 3 [] chunks (read_response_to_body {Foreign = ℕ} 3 (some 2) chunks))
read_response_to_body-Reading_example = read_response_to_body-Reading 3 (some 2) chunks

request-Succeeds_example :
    ((Client.request {Foreign = ℕ} "sum" Params.none
        (ok (Response.single (response 4)))
        http_client).0
      ≡ ok 5)
    ↔ Succeeds {Foreign = ℕ} 4 (ok (Response.single (response 4))) 5
request-Succeeds_example =
    request-Succeeds "sum" Params.none (ok (Response.single (response 4))) http_client 5
