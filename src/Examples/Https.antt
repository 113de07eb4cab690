-- ===== src/Examples/Https.antt =====
-- Concrete states of the HTTP server (http-server/src), with numbers for the channels of responses.
use jsonrpsee.Base.{ℕ, [], ◌∷◌, ◌++◌, some, ok, ◌≡◌, refl, arith, nat_eq}
use jsonrpsee.Base.Dict
use jsonrpsee.Types.Response.{Response}
use jsonrpsee.Http.Transport.{HttpTransportServer, TransportServerEvent, next_request, finish}
use jsonrpsee.Http.Transport.Ids.{Below, finish-next_request}
use jsonrpsee.Http.RawServer.{RawServer, batch_turn}
use jsonrpsee.Http.RawServer.Rounds.{Handled, batch_turn-Handled}
use jsonrpsee.Examples.Calls.{three_calls, one_batch}

-- request 4 is open
abbrev transport : HttpTransportServer ℕ ℕ
transport = record { next_request_id = 5; requests = (4, 70) ∷ []; responded = [] }

transport-Below : Below transport
unfolding Dict.get
transport-Below id c h = ground arith

abbrev result : Response ℕ
result = Response.batch []

finish-next_request_example :
    ((next_request (some (three_calls, 71)) transport).0
      ≡ some (TransportServerEvent.request 5 three_calls))
    × Below (next_request (some (three_calls, 71)) transport).1
    × ((finish 5 (some result) (next_request (some (three_calls, 71)) transport).1).0 ≡ ok tt)
    × ((finish 5 (some result) (next_request (some (three_calls, 71)) transport).1).1.responded
        ≡ transport.responded ++ ((71, some result) ∷ []))
    × ((j : ℕ)
        → Dict.get
            (finish 5 (some result) (next_request (some (three_calls, 71)) transport).1).1.requests
            j
          ≡ Dict.get transport.requests j)
finish-next_request_example =
    finish-next_request three_calls 71 result transport transport-Below (omega arith)

abbrev server : RawServer ℕ ℕ
server = record { raw = transport; batches = one_batch }

batch_turn-Handled_example : Handled server (batch_turn (Dict.keys server.batches.batches) server)
unfolding Dict.get
batch_turn-Handled_example = batch_turn-Handled server (refl, tt)
