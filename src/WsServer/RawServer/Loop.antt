-- ===== src/WsServer/RawServer/Loop.antt =====
-- The loop of `RawServer::next_event` (ws-server/src/raw/core.rs), on fuel.
use jsonrpsee.Base.{ℕ, zero, suc, List, Option, none, some, Eq}
use jsonrpsee.Base.Dict
use jsonrpsee.WsServer.Transport
use jsonrpsee.WsServer.Transport.{Event, TransportServerEvent, WsTransportServer}
use jsonrpsee.WsServer.RawServer.{
  RawServer, RawServerEvent, Turn, returned, again, pull, panic, batch_turn, raw_turn,
}

-- Where the loop stops: with an event, and what the transport has yet to report; waiting for the
-- transport; in a panic; or because the fuel has run out.
pub data Polled (Value Key : Type 0) : Type 0 where
  event : RawServerEvent Value Key → RawServer Value Key → List (Event Value) → Polled Value Key
  waiting : RawServer Value Key → Polled Value Key
  panicked : Polled Value Key
  out_of_fuel : Polled Value Key

module _ {Value Key : Type 0} ⦃e : Eq Key⦄ where
  -- What a round does with the end of its second half; `f` is the rest of the loop.
  abbrev pub raw_half :
      Turn Value Key
      → List (Event Value)
      → (List (Event Value) → RawServer Value Key → Polled Value Key)
      → Polled Value Key
  raw_half (returned ev s) rest f = event ev s rest
  raw_half (again s) rest f = f rest s
  raw_half (pull s) rest f = f rest s
  raw_half panic rest f = panicked

  -- `match self.raw.next_request().await`
  unfoldable pub transport_half :
      Option (TransportServerEvent Value) × WsTransportServer Value × List (Event Value)
      → RawServer Value Key
      → (List (Event Value) → RawServer Value Key → Polled Value Key)
      → Polled Value Key
  unfolding raw_turn
  transport_half (none, t, rest) s f = waiting (record s { raw = t })
  transport_half (some ev, t, rest) s f = raw_half (raw_turn ev (record s { raw = t })) rest f

  -- What a round does with the end of its first half
  unfoldable pub batch_half :
      Turn Value Key
      → List (Event Value)
      → (List (Event Value) → RawServer Value Key → Polled Value Key)
      → Polled Value Key
  unfolding transport_half Transport.next_request
  batch_half (returned ev s) evs f = event ev s evs
  batch_half (again s) evs f = f evs s
  batch_half panic evs f = panicked
  batch_half (pull s) evs f = transport_half (Transport.next_request evs s.raw) s f

  -- `RawServer::next_event`, a round for each unit of fuel
  unfoldable pub next_event : ℕ → List (Event Value) → RawServer Value Key → Polled Value Key
  unfolding batch_turn batch_half
  next_event zero evs s = out_of_fuel
  next_event (suc fuel) evs s =
      batch_half (batch_turn (Dict.keys s.batches.batches) s) evs
        (λ evs' s'. next_event fuel evs' s')
