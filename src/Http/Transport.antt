-- ===== src/Http/Transport.antt =====
-- `HttpTransportServer` of http-server/src/transport/mod.rs. `SendBack` is the type of the channels on
-- which the background thread waits for responses; the request that the thread yields is an argument.
pub mod Ids
use jsonrpsee.Base.{
  ℕ, ◌+◌, List, [], ◌∷◌, ◌++◌, Option, none, some, Bool, true, false, Result, ok, err, ltb,
  if◌then◌else◌, nat_eq,
}
use jsonrpsee.Base.Dict
use jsonrpsee.Base.Dict.{Dict}
use jsonrpsee.Types.Request.{Request}
use jsonrpsee.Types.Response.{Response}
use jsonrpsee.Batches.{u64_mod}

-- `TransportServerEvent`; `Closed` is made by no code of this transport.
pub data TransportServerEvent (Value : Type 0) : Type 0 where
  request : ℕ → Request Value → TransportServerEvent Value
  closed : ℕ → TransportServerEvent Value

-- `responded` records what went into the channels: a response, or no content.
pub record HttpTransportServer (Value SendBack : Type 0) : Type 0 where
  pub next_request_id : ℕ
  pub requests : Dict ℕ SendBack
  pub responded : List (SendBack × Option (Response Value))

module _ {Value SendBack : Type 0} where
  -- `next_request`. With no event it waits for ever: the thread has stopped, or the ids have run out.
  unfoldable pub next_request :
      Option (Request Value × SendBack)
      → HttpTransportServer Value SendBack
      → Option (TransportServerEvent Value) × HttpTransportServer Value SendBack
  unfolding Dict.insert
  next_request none t = (none, t)
  next_request (some (rq, send_back)) t =
      if ltb (t.next_request_id + 1) u64_mod
      then (
        some (TransportServerEvent.request t.next_request_id rq),
        record t {
          next_request_id = t.next_request_id + 1;
          requests = Dict.insert t.requests t.next_request_id send_back;
        },
      )
      else (none, t)

  unfoldable pub finish_with :
      ℕ
      → Option SendBack
      → Option (Response Value)
      → HttpTransportServer Value SendBack
      → Result (Unit {0}) (Unit {0}) × HttpTransportServer Value SendBack
  unfolding Dict.remove
  finish_with id none r t = (err tt, t)
  finish_with id (some send_back) r t = (
    ok tt,
    record t {
      requests = Dict.remove t.requests id;
      responded = t.responded ++ ((send_back, r) ∷ []);
    },
  )

  -- `finish`
  unfoldable pub finish :
      ℕ
      → Option (Response Value)
      → HttpTransportServer Value SendBack
      → Result (Unit {0}) (Unit {0}) × HttpTransportServer Value SendBack
  unfolding finish_with Dict.get
  finish id r t = finish_with id (Dict.get t.requests id) r t
