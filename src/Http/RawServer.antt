-- ===== src/Http/RawServer.antt =====
-- `RawServer` of http-server/src/raw/core.rs, on the batches of the WebSocket server and the HTTP
-- transport. A function that can panic has a value for the panic among its results.
pub mod Rounds
pub mod Turns
use jsonrpsee.Base.{
  ℕ, List, [], Option, none, some, Bool, true, false, Result, ok, err, if◌then◌else◌, nat_eq, ◌==◌,
}
use jsonrpsee.Base.Dict
use jsonrpsee.Types.Errors.{Error}
use jsonrpsee.Types.Request.{Notification, Request}
use jsonrpsee.Types.Response.{Response}
use jsonrpsee.Batches
use jsonrpsee.Batches.{BatchesState, BatchesEvent, BatchesElem, BatchesElemId, elem_id, Polled}
use jsonrpsee.Http.Transport
use jsonrpsee.Http.Transport.{HttpTransportServer, TransportServerEvent}

pub record RawServer (Value SendBack : Type 0) : Type 0 where
  pub raw : HttpTransportServer Value SendBack
  pub batches : BatchesState Value (Option ℕ)

pub data RawServerEvent (Value : Type 0) : Type 0 where
  notification : Notification Value → RawServerEvent Value
  request : BatchesElem Value (Option ℕ) → RawServerEvent Value

-- The end of one half of a round of the loop in `next_event`: it returns, goes on with the next
-- round, goes on to wait for the transport, or panics.
pub data Turn (Value SendBack : Type 0) : Type 0 where
  returned : RawServerEvent Value → RawServer Value SendBack → Turn Value SendBack
  again : RawServer Value SendBack → Turn Value SendBack
  pull : RawServer Value SendBack → Turn Value SendBack
  panic : Turn Value SendBack

-- `*ud = None` where the parameter is that request
abbrev pub forget : ℕ → Option ℕ → Option ℕ
forget raw none = none
forget raw (some r) = if r == raw then none else some r

module _ {Value SendBack : Type 0} where
  -- `RawServer::new`
  unfoldable pub new : HttpTransportServer Value SendBack → RawServer Value SendBack
  unfolding Batches.new
  new t = record { raw = t; batches = Batches.new }

  -- `request_by_id(..).unwrap()` at the end of `next_event`
  show_request :
      Option (BatchesElem Value (Option ℕ)) → RawServer Value SendBack → Turn Value SendBack
  show_request none s = panic
  show_request (some x) s = returned (RawServerEvent.request x) s

  after_batches : Polled Value (Option ℕ) → RawServer Value SendBack → Turn Value SendBack
  unfolding show_request Batches.request_by_id Transport.finish
  after_batches none s = panic
  after_batches (some (none, b)) s = pull (record s { batches = b })
  after_batches (some (some (BatchesEvent.notification n u), b)) s =
      returned (notification n) (record s { batches = b })
  after_batches (some (some (BatchesEvent.request x), b)) s =
      show_request (Batches.request_by_id (elem_id x) b) (record s { batches = b })
  after_batches (some (some (BatchesEvent.ready_to_send r (some id)), b)) s =
      again (record { raw = (Transport.finish id (some r) s.raw).1; batches = b })
  after_batches (some (some (BatchesEvent.ready_to_send r none), b)) s =
      again (record s { batches = b })

  -- The first half of a round of `next_event`: `match self.batches.next_event()`, with the keys in
  -- the order in which the table of batches iterates over them.
  unfoldable pub batch_turn : List ℕ → RawServer Value SendBack → Turn Value SendBack
  unfolding after_batches Batches.next_event
  batch_turn ks s = after_batches (Batches.next_event ks s.batches) s

  injected : Option (BatchesState Value (Option ℕ)) → RawServer Value SendBack → Turn Value SendBack
  injected none s = panic
  injected (some b) s = again (record s { batches = b })

  -- The second half of a round: `match self.raw.next_request().await`, given the event.
  unfoldable pub raw_turn :
      TransportServerEvent Value → RawServer Value SendBack → Turn Value SendBack
  unfolding injected Batches.inject Batches.map_params
  raw_turn (TransportServerEvent.request id rq) s =
      injected (Batches.inject rq (some id) s.batches) s
  raw_turn (TransportServerEvent.closed id) s =
      again (record s { batches = Batches.map_params (forget id) s.batches })

  respond_with :
      Option (BatchesState Value (Option ℕ))
      → RawServer Value SendBack
      → Option (RawServer Value SendBack)
  respond_with none s = none
  respond_with (some b) s = some (record s { batches = b })

  -- `RawServerRequest::respond`
  unfoldable pub respond :
      BatchesElemId
      → Result Value (Error Value)
      → RawServer Value SendBack
      → Option (RawServer Value SendBack)
  unfolding respond_with Batches.set_response
  respond id r s = respond_with (Batches.set_response id r s.batches) s
