-- ===== src/Examples/Servers.antt =====
-- Concrete states of the server (ws-server/src), with numbers for the identifiers of subscriptions and
-- for the handlers' channels.
use jsonrpsee.Base.{
  ℕ, [], ◌∷◌, none, some, true, false, ◌≡◌, refl, inl, if◌then◌else◌, ◌==◌, nat_eq, string_eq,
  arith,
}
use jsonrpsee.Base.Dict
use jsonrpsee.Base.Dict.{Dict}
use jsonrpsee.Base.Dict.Counting.{count_values}
use jsonrpsee.Batch
use jsonrpsee.Batches
use jsonrpsee.Batches.{BatchesState, elem_id, u64_mod}
use jsonrpsee.WsServer.Transport
use jsonrpsee.WsServer.RawServer.Loop
use jsonrpsee.WsServer.RawServer.Ends.{Fit, Stops, next_event-Stops}
use jsonrpsee.WsServer.Transport.{
  WsTransportServer, TransportServerEvent, send_response, finish, send, finished,
}
use jsonrpsee.WsServer.RawServer.{RawServer, SubscriptionState, raw_turn, close, into_subscription}
use jsonrpsee.WsServer.RawServer.Counts.{HasCounts, After, raw_turn-HasCounts, close-HasCounts}
use jsonrpsee.WsServer.RawServer.Subscribe.{SubscribeResult, into_subscription-SubscribeResult}
use jsonrpsee.WsServer.RawServer.Rounds.{Forgotten, raw_turn-Forgotten}
use jsonrpsee.WsServer.Server.{Task, occurrences}
use jsonrpsee.WsServer.Server.Events.{drop_client, close_clients}
use jsonrpsee.WsServer.Server.Sync.{TaskInSync, drop_client-InSync}
use jsonrpsee.WsServer.Server.Closing.{close_clients-InSync}
use jsonrpsee.Examples.Calls.{asked_batch, first_elem}

abbrev transport : WsTransportServer ℕ
transport = record {
  pending_events = [];
  to_connections = (4, record { is_open = true }) ∷ [];
  sent = [];
}

abbrev news : SubscriptionState
news = record { raw_id = 4; method = "news"; pending = false }

-- connection 4 with subscription 11, and a batch whose method call waits for its answer
abbrev server : RawServer ℕ ℕ
server = record {
  raw = transport;
  batches = asked_batch;
  subscriptions = (11, news) ∷ [];
  num_subscriptions = (4, 1) ∷ [];
}

server-HasCounts : HasCounts server
unfolding Dict.get count_values
server-HasCounts = record {
  unique = (refl, tt);
  counted = λ r. ground arith;
  positive = λ r n h. ground arith;
}

raw_turn-HasCounts_example : After HasCounts (raw_turn (TransportServerEvent.closed 4) server)
raw_turn-HasCounts_example =
    raw_turn-HasCounts (TransportServerEvent.closed 4) server server-HasCounts

raw_turn-Forgotten_example : After (Forgotten 4) (raw_turn (TransportServerEvent.closed 4) server)
raw_turn-Forgotten_example = raw_turn-Forgotten 4 server server-HasCounts

close-HasCounts_example : (s' : RawServer ℕ ℕ) × (close 11 server ≡ some s') × HasCounts s'
unfolding Dict.get
close-HasCounts_example = close-HasCounts 11 news server server-HasCounts refl

into_subscription-SubscribeResult_example :
    SubscribeResult
      (λ (k : ℕ). k)
      (11 ∷ 12 ∷ [])
      first_elem
      server
      (into_subscription (λ (k : ℕ). k) (11 ∷ 12 ∷ []) first_elem server)
unfolding Batches.request_by_id Batch.request_by_id Dict.get
into_subscription-SubscribeResult_example =
    into_subscription-SubscribeResult (λ (k : ℕ). k) (11 ∷ 12 ∷ []) first_elem server refl

-- the background task with the registered subscription 3, for which client 11 is active
abbrev task : Task ℕ ℕ ℕ
task = record {
  server = server;
  registered_notifications = [];
  registered_methods = [];
  subscribe_methods = ("subscribe", 3) ∷ [];
  unsubscribe_methods = ("unsubscribe", 3) ∷ [];
  subscribed_clients = (3, 11 ∷ []) ∷ [];
  active_subscriptions = (11, 3) ∷ [];
  dispatched = [];
}

task-TaskInSync : TaskInSync task
unfolding Dict.get occurrences
task-TaskInSync k u = ground arith

drop_client-InSync_example : TaskInSync (drop_client 11 3 task)
unfolding Dict.get
drop_client-InSync_example = drop_client-InSync 11 3 task task-TaskInSync (inl refl)

close_clients-InSync_example :
    (t' : Task ℕ ℕ ℕ) × (close_clients (11 ∷ 12 ∷ []) task ≡ some t')
    × TaskInSync t'
    × ((j : ℕ)
        → Dict.get t'.active_subscriptions j ≡ (
            if occurrences j (11 ∷ 12 ∷ []) == 0
            then Dict.get task.active_subscriptions j
            else none))
close_clients-InSync_example = close_clients-InSync (11 ∷ 12 ∷ []) task task-TaskInSync

server-Fit : Fit (Transport.new_connection ∷ []) server
unfolding Dict.get
server-Fit = record { unique = (refl, tt); next_id = omega arith; room = omega arith }

next_event-Stops_example : Stops (Loop.next_event 10 (Transport.new_connection ∷ []) server)
next_event-Stops_example =
    next_event-Stops 10 (Transport.new_connection ∷ []) server server-Fit (omega arith)
