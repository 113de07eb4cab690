-- ===== src/WsServer/Connection/Link.antt =====
-- One connection and the server (ws-server/src/transport.rs): the task of the connection, its two
-- channels, and the transport of the server, which other connections use too.
use jsonrpsee.Base.{ℕ, List, [], ◌∷◌, ◌++◌, Option, none, some, Bool, true, Result, nat_eq, ◌≡◌}
use jsonrpsee.Base.Dict
use jsonrpsee.Types.Request.{Request}
use jsonrpsee.Types.Response.{Response}
use jsonrpsee.WsServer.Transport.{
  WsTransportServer, Sender, FrontToBack, new_request, next_request, finish, send_response,
}
use jsonrpsee.WsServer.Connection.{Selected, left, right, Round, Connection, again, round}

-- `queue` holds the requests that the server has not read yet, `inbox` the messages that the task has
-- not read yet.
pub record Net (Value : Type 0) : Type 0 where
  pub server : WsTransportServer Value
  pub connection : Connection Value
  pub queue : List (ℕ × Request Value)
  pub inbox : List (FrontToBack Value)

abbrev pub messages : {Value : Type 0} → List (ℕ × FrontToBack Value) → List (FrontToBack Value)
messages [] = []
messages ((id, m) ∷ ms) = m ∷ messages ms

abbrev pub live : Sender
live = record { is_open = true }

-- A connection whose task enters its loop, and of which the server knows nothing
pub record Opens {Value : Type 0} (mine : ℕ → Bool) (n : Net Value) : Type 0 where
  pub none_pending : n.connection.pending_requests ≡ []
  pub none_queued : n.queue ≡ []
  pub none_sent : n.inbox ≡ []
  pub none_known : (j : ℕ) → mine j ≡ true → Dict.get n.server.to_connections j ≡ none

-- What `select` can return to the task
pub data Offered {Value Byte Foreign : Type 0} (n : Net Value)
    : Selected Value Byte Foreign → Type 0 where
  from_socket : (p : Option (Result (List Byte) Foreign)) → Offered n (left p)
  from_server :
      (m : FrontToBack Value) (rest : List (FrontToBack Value))
      → n.inbox ≡ m ∷ rest
      → Offered n (right (some m))
  server_gone : Offered n (right none)

module _ {Value Byte : Type 0} (Foreign : Type 0) (parse : List Byte → Option (Request Value))
    (mine : ℕ → Bool) where
  -- What happens at the connection: its task handles a packet or a message and goes on, the server reads
  -- a request, sends a response or finishes a request of this connection, or does something that leaves
  -- the channels to this connection in place. `mine` says which ids are this connection's.
  pub data Step (n : Net Value) : Net Value → Type 0 where
    packet :
        (w : Round Value Byte Foreign) (p : Option (Result (List Byte) Foreign))
        (c : Connection Value) (new : List (ℕ × Request Value))
        → w.selected ≡ left p
        → round parse w n.connection ≡ again c
        → c.new_requests ≡ n.connection.new_requests ++ new
        → Step n (record n { connection = c; queue = n.queue ++ new })
    message :
        (w : Round Value Byte Foreign) (m : FrontToBack Value) (rest : List (FrontToBack Value))
        (c : Connection Value)
        → w.selected ≡ right (some m)
        → n.inbox ≡ m ∷ rest
        → round parse w n.connection ≡ again c
        → Step n (record n { connection = c; inbox = rest })
    arrives :
        (id : ℕ) (rq : Request Value) (rest : List (ℕ × Request Value))
        → n.queue ≡ (id, rq) ∷ rest
        → n.server.pending_events ≡ []
        → Step n (record n {
          server = (next_request (new_request id rq live ∷ []) n.server).1;
          queue = rest;
        })
    finishes :
        (id : ℕ) (r : Option (Response Value)) (xs : List (ℕ × FrontToBack Value))
        → mine id ≡ true
        → (finish id r n.server).1.sent ≡ n.server.sent ++ xs
        → Step n (record n { server = (finish id r n.server).1; inbox = n.inbox ++ messages xs })
    sends :
        (id : ℕ) (r : Response Value) (xs : List (ℕ × FrontToBack Value))
        → mine id ≡ true
        → (send_response id r n.server).1.sent ≡ n.server.sent ++ xs
        → Step n
            (record n { server = (send_response id r n.server).1; inbox = n.inbox ++ messages xs })
    elsewhere :
        (s : WsTransportServer Value)
        → ((j : ℕ)
            → mine j ≡ true
            → Dict.get s.to_connections j ≡ Dict.get n.server.to_connections j)
        → Step n (record n { server = s })

  pub data Run (n : Net Value) : Net Value → Type 0 where
    start : Run n n
    then_step : {m m' : Net Value} → Run n m → Step m m' → Run n m'
