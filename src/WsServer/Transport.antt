-- ===== src/WsServer/Transport.antt =====
-- ws-server/src/transport.rs, the side of the server: which requests still have a connection, and
-- what is sent to them. A message is what is serialized: `none` stands for the text `null`, to which
-- serde turns a `None`.
pub mod Delivery
pub mod Reports
use jsonrpsee.Base.{
  ℕ, zero, List, [], ◌∷◌, ◌++◌, Option, none, some, Bool, true, false, Result, ok, err, is_none,
  if◌then◌else◌, nat_eq,
}
use jsonrpsee.Base.Dict
use jsonrpsee.Base.Dict.{Dict}
use jsonrpsee.Types.Request.{Request}
use jsonrpsee.Types.Response.{Response}

pub data TransportServerEvent (Value : Type 0) : Type 0 where
  request : ℕ → Request Value → TransportServerEvent Value
  closed : ℕ → TransportServerEvent Value

-- The sending half of the channel to a connection's task: whether the task still receives.
pub record Sender : Type 0 where
  pub is_open : Bool

pub data FrontToBack (Value : Type 0) : Type 0 where
  send : Option (Response Value) → FrontToBack Value
  finished : ℕ → FrontToBack Value

-- `Event` in `next_request`: what the tasks and the listener report
pub data Event (Value : Type 0) : Type 0 where
  task_finished : List ℕ → Event Value
  new_connection : Event Value
  new_request : ℕ → Request Value → Sender → Event Value

-- `sent` records what went into the channels, with the request whose channel it was.
pub record WsTransportServer (Value : Type 0) : Type 0 where
  pub pending_events : List (TransportServerEvent Value)
  pub to_connections : Dict ℕ Sender
  pub sent : List (ℕ × FrontToBack Value)

module _ {Value : Type 0} where
  -- `sender.send(message).await`, which fails where the task has stopped
  abbrev pub put :
      ℕ
      → Sender
      → FrontToBack Value
      → WsTransportServer Value
      → Result (Unit {0}) (Unit {0}) × WsTransportServer Value
  put id s m t =
      if s.is_open then (ok tt, record t { sent = t.sent ++ (id, m) ∷ [] }) else (err tt, t)

  finish_with :
      ℕ
      → Option Sender
      → Option (Response Value)
      → WsTransportServer Value
      → Result (Unit {0}) (Unit {0}) × WsTransportServer Value
  unfolding Dict.remove
  finish_with id none r t = (err tt, t)
  finish_with id (some s) r t =
      let t' : WsTransportServer Value = record t {
        to_connections = Dict.remove t.to_connections id;
      } in
      let (res, t'') = put id s (send r) t' in
      elim res [ err e ↦ (err e, t'') | ok o ↦ put id s (finished id) t'' ]

  -- `WsTransportServer::finish`
  unfoldable pub finish :
      ℕ
      → Option (Response Value)
      → WsTransportServer Value
      → Result (Unit {0}) (Unit {0}) × WsTransportServer Value
  unfolding finish_with Dict.get
  finish id r t = finish_with id (Dict.get t.to_connections id) r t

  -- `WsTransportServer::supports_resuming`
  unfoldable pub supports_resuming : ℕ → WsTransportServer Value → Result Bool (Unit {0})
  unfolding Dict.get
  supports_resuming id t = if Dict.contains t.to_connections id then ok true else err tt

  send_with :
      ℕ
      → Option Sender
      → Response Value
      → WsTransportServer Value
      → Result (Unit {0}) (Unit {0}) × WsTransportServer Value
  send_with id none r t = (ok tt, t)
  send_with id (some s) r t = put id s (send (some r)) t

  -- `WsTransportServer::send`
  unfoldable pub send_response :
      ℕ
      → Response Value
      → WsTransportServer Value
      → Result (Unit {0}) (Unit {0}) × WsTransportServer Value
  unfolding send_with Dict.get
  send_response id r t = send_with id (Dict.get t.to_connections id) r t

  -- the loop over the requests of a task that has finished
  unfoldable pub close_requests : List ℕ → WsTransportServer Value → WsTransportServer Value
  unfolding Dict.get Dict.remove
  close_requests [] t = t
  close_requests (id ∷ ids) t = close_requests ids (
      if Dict.contains t.to_connections id
      then record t {
        to_connections = Dict.remove t.to_connections id;
        pending_events = t.pending_events ++ closed id ∷ [];
      }
      else t)

  abbrev pub pop_pending :
      List (TransportServerEvent Value)
      → WsTransportServer Value
      → Option (TransportServerEvent Value × WsTransportServer Value)
  pop_pending [] t = none
  pop_pending (ev ∷ evs) t = some (ev, record t { pending_events = evs })

  -- The first pending event, or else what follows in the loop
  abbrev pub report :
      Option (TransportServerEvent Value × WsTransportServer Value)
      → List (Event Value)
      → Option (TransportServerEvent Value) × WsTransportServer Value × List (Event Value)
      → Option (TransportServerEvent Value) × WsTransportServer Value × List (Event Value)
  report none evs otherwise = otherwise
  report (some (ev, t)) evs otherwise = (some ev, t, evs)

  -- `WsTransportServer::next_request`, given what the tasks and the listener report from now on. With
  -- no event it still waits.
  unfoldable pub next_request :
      List (Event Value)
      → WsTransportServer Value
      → Option (TransportServerEvent Value) × WsTransportServer Value × List (Event Value)
  unfolding close_requests Dict.insert
  next_request [] t = report (pop_pending t.pending_events t) [] (none, t, [])
  next_request (new_connection ∷ evs) t =
      report (pop_pending t.pending_events t) (new_connection ∷ evs) (next_request evs t)
  next_request (new_request id body s ∷ evs) t =
      report (pop_pending t.pending_events t) (new_request id body s ∷ evs) (
        some (request id body),
        record t { to_connections = Dict.insert t.to_connections id s },
        evs,
      )
  next_request (task_finished ids ∷ evs) t =
      report (pop_pending t.pending_events t) (task_finished ids ∷ evs)
        (next_request evs (close_requests ids t))
