-- ===== src/WsServer/Connection.antt =====
-- `per_connection_task` of ws-server/src/transport.rs: the task of one connection. Parsing is a
-- parameter. What the task waits for is a list of what its `select` returns in turn, each with what the
-- sends of that round answer. A text that goes out is what is serialized, as in WsServer.Transport.
pub mod Accounts
pub mod Link
pub mod Balance
pub mod Ends
pub mod Task
pub mod Closings
use jsonrpsee.Base.{
  ℕ, ◌+◌, ◌%◌, List, [], ◌∷◌, ◌++◌, Option, none, some, Bool, Result, ok, err, if◌then◌else◌, ◌==◌,
  nat_eq,
}
use jsonrpsee.Types.Errors.{Error, error_parse_error}
use jsonrpsee.Types.Request.{Request, CallId, Version, v2}
use jsonrpsee.Types.Response.{Response, Output}
use jsonrpsee.Batches.{u64_mod}
use jsonrpsee.WsServer.Transport.{FrontToBack, send, finished}

-- `Response::from`
unfoldable pub response_from : {Value : Type 0} → Error Value → Version → Response Value
response_from e v =
    Response.single (Output.failure (record { jsonrpc = v; error = e; id = CallId.null }))

-- What `select` returns: the next packet of the socket, whose stream may have ended, or the next message
-- of the server, whose channel may be closed.
pub data Selected (Value Byte Foreign : Type 0) : Type 0 where
  left : Option (Result (List Byte) Foreign) → Selected Value Byte Foreign
  right : Option (FrontToBack Value) → Selected Value Byte Foreign

-- What `to_front.send(..).now_or_never()` gives
pub data Report : Type 0 where
  transmitted : Report
  failed : Report
  not_ready : Report

-- A round of the loop. `others` is how many requests the other connections have counted since the round
-- before, `takes` whether the socket takes a text, and `report` what the channel to the server answers.
pub record Round (Value Byte Foreign : Type 0) : Type 0 where
  pub selected : Selected Value Byte Foreign
  pub others : ℕ
  pub takes : Bool
  pub report : Report

-- The variables of the task: `next_request_id` is shared with the other connections, `new_requests`
-- records what the server has been told, and `texts` what went to the socket.
pub record Connection (Value : Type 0) : Type 0 where
  pub pending_requests : List ℕ
  pub next_request_id : ℕ
  pub new_requests : List (ℕ × Request Value)
  pub texts : List (Option (Response Value))

-- The task goes on, has returned its pending requests, or has panicked.
pub data Flow (Value : Type 0) : Type 0 where
  again : Connection Value → Flow Value
  returned : List ℕ → Connection Value → Flow Value
  panicked : Connection Value → Flow Value

-- `pending_requests.iter().position(..)` and `remove`
unfoldable pub remove_pending : ℕ → List ℕ → Option (List ℕ)
remove_pending id [] = none
remove_pending id (r ∷ rs) =
    let rest : Option (List ℕ) = elim (remove_pending id rs) [
      | none ↦ none
      | some rs' ↦ some (r ∷ rs')
    ] in
    if r == id then some rs else rest

module _ {Value : Type 0} where
  unfoldable pub return_pending : Connection Value → Flow Value
  return_pending c = returned c.pending_requests c

  -- `sender.send_text(..).await`; an error ends the task
  unfoldable pub send_text : Bool → Option (Response Value) → Connection Value → Flow Value
  unfolding return_pending
  send_text takes r c =
      if takes then again (record c { texts = c.texts ++ (r ∷ []) }) else return_pending c

  -- the match on the result of the report
  unfoldable pub reported : Report → ℕ → Request Value → Connection Value → Flow Value
  unfolding return_pending
  reported transmitted id rq c = again (record c {
    pending_requests = c.pending_requests ++ (id ∷ []);
    new_requests = c.new_requests ++ ((id, rq) ∷ []);
  })
  reported failed id rq c = return_pending c
  reported not_ready id rq c = return_pending c

  -- a packet that is parsed, or not
  unfoldable pub on_packet : Bool → Report → Option (Request Value) → Connection Value → Flow Value
  unfolding send_text reported response_from error_parse_error
  on_packet takes report none c = send_text takes (some (response_from error_parse_error v2)) c
  on_packet takes report (some rq) c =
      reported report c.next_request_id rq
        (record c { next_request_id = (c.next_request_id + 1) % u64_mod })

  finish_pending : Option (List ℕ) → Connection Value → Flow Value
  finish_pending none c = panicked c
  finish_pending (some ids) c = again (record c { pending_requests = ids })

  module _ {Byte Foreign : Type 0} (parse : List Byte → Option (Request Value)) where
    unfoldable pub on_selected :
        Bool → Report → Selected Value Byte Foreign → Connection Value → Flow Value
    unfolding on_packet return_pending send_text finish_pending remove_pending
    on_selected takes report (left (some (ok bytes))) c = on_packet takes report (parse bytes) c
    on_selected takes report (left (some (err e))) c = return_pending c
    on_selected takes report (left none) c = return_pending c
    on_selected takes report (right (some (send r))) c = send_text takes r c
    on_selected takes report (right (some (finished id))) c =
        finish_pending (remove_pending id c.pending_requests) c
    on_selected takes report (right none) c = return_pending c

    -- One round of the loop
    unfoldable pub round : Round Value Byte Foreign → Connection Value → Flow Value
    unfolding on_selected
    round w c =
        on_selected w.takes w.report w.selected
          (record c { next_request_id = (c.next_request_id + w.others) % u64_mod })

    -- The loop, over the rounds there are
    unfoldable pub rounds : List (Round Value Byte Foreign) → Connection Value → Flow Value
    unfolding round
    rounds [] c = again c
    rounds (w ∷ ws) c = elim (round w c) [
      | again c' ↦ rounds ws c'
      | returned ids c' ↦ returned ids c'
      | panicked c' ↦ panicked c'
    ]

    -- `per_connection_task`: `handshake` says whether the request of the handshake comes, `accepted`
    -- whether its response goes out, and `counted` is the shared counter when the loop starts.
    unfoldable pub per_connection_task :
        Bool → Bool → ℕ → List (Round Value Byte Foreign) → Flow Value
    unfolding rounds
    per_connection_task handshake accepted counted ws =
        let c : Connection Value = record {
          pending_requests = [];
          next_request_id = counted;
          new_requests = [];
          texts = [];
        } in
        if handshake then if accepted then rounds ws c else returned [] c else returned [] c
