-- ===== src/Lib.antt =====
-- Verification of jsonrpsee, a library of JSON-RPC 2.0 clients and servers. Values of JSON are a
-- parameter `Value` of the models; parsing and printing them is the work of serde and not
-- modelled.
--
-- The parts, and the files that model them:
--
--   Types      types/src/jsonrpc/{error,request,response,id,version,params}.rs, wrapped/params.rs and
--              types/src/error.rs: messages, error codes and errors.
--   Batch      types/src/jsonrpc/wrapped/batch.rs: the state of one request of a client, single or
--              batch. `BatchState` is the record of that name; `next`, `request_by_id`,
--              `is_ready_to_respond`, `into_response` and `set_response` are its operations. `BatchElem`,
--              which borrows an entry of `requests`, is the index of that entry with a copy of it.
--   Batches    types/src/jsonrpc/wrapped/batches.rs: all requests that a server has received and not
--              answered. `next_event` takes the keys of the hash table in the order in which the table
--              iterates over them, so what is shown holds for every order.
--              Batches.Refinement has the abstract view of the table, a map of the waiting requests.
--   WsServer   ws-server/src. Transport is transport.rs: the channels to the connections and the events
--              of the tasks. Connection is per_connection_task of that file, and Connection.Link puts the
--              task, its channels and the transport together, as steps. RawServer is raw/core.rs: it
--              injects requests into Batches, hands out their calls, and keeps the subscriptions. Server
--              is server.rs: Frontend holds the registrations of the user, and Server itself the
--              background task; Server.Events dispatches the events of RawServer to the handlers.
--   WsClient   ws-client/src. Manager is manager.rs: the requests and subscriptions of a client.
--              Processing is `process_response` of client.rs, and Client its background task, with the
--              sender of jsonrpc_transport.rs. Frontend has the calls of the user, which send to the task.
--   Http       Client is http-client/src/client.rs, ClientTransport transport.rs beside it, and Body the
--              reading of a body in utils/src/http/hyper_helpers.rs. On the server's side, Background is the function
--              process_request of http-server/src/transport/background.rs, which checks a request and
--              passes it on, and Responses the replies of response.rs beside it; Transport is
--              http-server/src/transport/mod.rs, RawServer is http-server/src/raw/core.rs, and Server
--              http-server/src/server.rs, with the registrations of the user in Server.Frontend.
--   Utils      utils/src/http. Hosts is hosts.rs with matcher.rs, Cors is cors.rs, AccessControl is
--              access_control.rs with its builder, and Headers the readers of headers in
--              hyper_helpers.rs. Http.Background calls them.
--   Examples   concrete runs of the models.
--   Base       maps, lists, decidable equality, results, integers and texts for all of them.
--
-- How the code is modelled. A hash table is an association list with one entry for each key. A
-- function that can panic, by an `expect`, an `unwrap` or an assertion, has a value for the panic
-- among its results; debug assertions are left out of the functions. An asynchronous function is
-- the function of its state and of what it waits for: the events of the transport, the answer of
-- a channel, whether a WebSocket takes a message, random identifiers. An integer of type `u64` is
-- a number below 2^64, and its increment wraps around. A round of the loop of the raw server's
-- `next_event` has two halves, `batch_turn` and `raw_turn`; WsServer.RawServer.Loop puts them
-- together on fuel, a unit for a round; more units than batches, and twice the events to come,
-- are enough. The loop of `inject` runs on one more unit of fuel than there are batches, which is
-- enough, since of so many consecutive ids one is vacant.
--
-- A text that the code takes apart is a list of code points. Its letters are lowered as ASCII,
-- which is what `to_lowercase` does to the ASCII texts of headers. A `split` runs on as much fuel
-- as the text is long, and so does the printing of a decimal on fuel that its number bounds, both
-- enough. The patterns of the crate globset, the header values of hyper and the chunks of a body
-- are parameters.
--
-- Not modelled: the socket I/O of the transports, the HTTP service among it; serialization;
-- `update` and the configuration of hosts; typed_rp.rs; the procedural macros.
pub mod Base
pub mod Types
pub mod Batch
pub mod Batches
pub mod WsServer
pub mod WsClient
pub mod Examples
pub mod Http
pub mod Utils
