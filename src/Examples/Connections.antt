-- ===== src/Examples/Connections.antt =====
-- A run of one connection of the WebSocket server (ws-server/src/transport.rs), with numbers for bytes.
use jsonrpsee.Base.{
  ℕ, List, [], ◌∷◌, Option, none, some, Bool, true, false, ◌&&◌, ok, ◌⊎◌, ◌≡◌, refl, nat_eq, In,
}
use jsonrpsee.Base.Dict
use jsonrpsee.Types.Request.{Request}
use jsonrpsee.Types.Response.{Response}
use jsonrpsee.WsServer.Transport.{
  WsTransportServer, FrontToBack, send, finished, closed, finish, close_requests, next_request,
}
use jsonrpsee.WsServer.Connection.{
  left, right, transmitted, per_connection_task, returned, Round, Connection, round, on_selected,
  on_packet, reported, send_text, return_pending,
}
use jsonrpsee.WsServer.Connection.Link.{
  Net, Opens, Run, start, then_step, packet, arrives, finishes, message, from_server, server_gone,
  live,
}
use jsonrpsee.WsServer.Connection.Task.{opening, Went, per_connection_task-Went}
use jsonrpsee.WsServer.Connection.Ends.{Sound, Run-Sound, Run-closed}
use jsonrpsee.Examples.Calls.{three_calls}

abbrev parse : List ℕ → Option (Request ℕ)
parse bytes = some three_calls

abbrev own : ℕ → Bool
own id = true

abbrev on_request : Round ℕ ℕ ℕ
on_request = record {
  selected = left (some (ok (1 ∷ [])));
  others = 0;
  takes = true;
  report = transmitted;
}

abbrev fresh : Net ℕ
fresh = record {
  server = record { pending_events = []; to_connections = []; sent = [] };
  connection = record { pending_requests = []; next_request_id = 1; new_requests = []; texts = [] };
  queue = [];
  inbox = [];
}

fresh-Opens : Opens own fresh
unfolding Dict.get
fresh-Opens = record {
  none_pending = refl;
  none_queued = refl;
  none_sent = refl;
  none_known = λ j h. refl;
}

-- after the request of the packet, under id 1
abbrev asking : Connection ℕ
asking = record {
  pending_requests = 1 ∷ [];
  next_request_id = 2;
  new_requests = (1, three_calls) ∷ [];
  texts = [];
}

abbrev queued : Net ℕ
queued = record fresh { connection = asking; queue = (1, three_calls) ∷ [] }

abbrev open_server : WsTransportServer ℕ
open_server = record { pending_events = []; to_connections = (1, live) ∷ []; sent = [] }

abbrev opened : Net ℕ
opened = record queued { queue = []; server = open_server }

queued-Run : Run ℕ parse own fresh queued
unfolding round on_selected on_packet reported
queued-Run =
    then_step start
      (packet on_request (some (ok (1 ∷ []))) asking ((1, three_calls) ∷ []) refl refl refl)

opened-Run : Run ℕ parse own fresh opened
unfolding next_request Dict.insert
opened-Run = then_step queued-Run (arrives 1 three_calls [] refl refl)

abbrev result : FrontToBack ℕ
result = send (some (Response.batch []))

abbrev done_server : WsTransportServer ℕ
done_server = record {
  pending_events = [];
  to_connections = [];
  sent = (1, result) ∷ (1, finished 1) ∷ [];
}

abbrev finishing : Net ℕ
finishing = record opened { server = done_server; inbox = result ∷ finished 1 ∷ [] }

finishing-Run : Run ℕ parse own fresh finishing
unfolding finish Dict.get Dict.remove
finishing-Run =
    then_step opened-Run
      (finishes 1 (some (Response.batch [])) ((1, result) ∷ (1, finished 1) ∷ []) refl refl)

abbrev on_result : Round ℕ ℕ ℕ
on_result = record {
  selected = right (some result);
  others = 3;
  takes = true;
  report = transmitted;
}

abbrev last_message : Net ℕ
last_message = record finishing {
  connection = record asking { next_request_id = 5; texts = some (Response.batch []) ∷ [] };
  inbox = finished 1 ∷ [];
}

last_message-Run : Run ℕ parse own fresh last_message
unfolding round on_selected send_text
last_message-Run =
    then_step finishing-Run
      (message on_result result (finished 1 ∷ []) (last_message.connection) refl refl refl)

abbrev on_finished : Round ℕ ℕ ℕ
on_finished = record {
  selected = right (some (finished 1));
  others = 0;
  takes = true;
  report = transmitted;
}

Run-Sound_example :
    Sound {Byte = ℕ} ℕ parse own last_message (round parse on_finished last_message.connection)
Run-Sound_example =
    Run-Sound ℕ parse own fresh last_message on_finished fresh-Opens last_message-Run
      (from_server (finished 1) [] refl)

abbrev on_end : Round ℕ ℕ ℕ
on_end = record { selected = right none; others = 0; takes = true; report = transmitted }

Run-closed_example :
    (Dict.get (close_requests (1 ∷ []) open_server).to_connections 1 ≡ none)
    × In (closed 1) (close_requests (1 ∷ []) open_server).pending_events
unfolding round on_selected return_pending Dict.get
Run-closed_example =
    Run-closed ℕ parse own fresh opened on_end (1 ∷ []) asking 1 live fresh-Opens opened-Run
      server_gone refl refl refl

-- The handshake, one request, and the end of the channel from the server.
per_connection_task-Went_example :
    (((true && true) ≡ false)
      × (per_connection_task parse true true 1 (on_request ∷ on_end ∷ [])
          ≡ returned [] (opening ℕ parse 1)))
    ⊎ Went
        (opening ℕ parse 1)
        (on_request ∷ on_end ∷ [])
        (per_connection_task parse true true 1 (on_request ∷ on_end ∷ []))
per_connection_task-Went_example =
    per_connection_task-Went ℕ parse true true 1 (on_request ∷ on_end ∷ [])
