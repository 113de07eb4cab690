-- ===== src/WsServer/RawServer.antt =====
-- ws-server/src/raw/core.rs. `Key` is the type of the random identifiers of subscriptions, 32 bytes
-- each. A function that can panic has a `panic` or `none` among its results; debug assertions are
-- not part of the functions, and are stated as theorems.
pub mod Loop
pub mod Keys
pub mod Counts
pub mod Subscribe
pub mod Rounds
pub mod Ends
use jsonrpsee.Base.{
  ℕ, zero, suc, ◌+◌, ◌-◌, List, [], ◌∷◌, ◌++◌, Option, none, some, Bool, true, false, not, ◌&&◌,
  Result, ok, err, String, is_none, ltb, leb, if◌then◌else◌, Eq, ◌==◌, nat_eq,
}
use jsonrpsee.Base.Dict
use jsonrpsee.Base.Dict.{Dict}
use jsonrpsee.Types.Errors.{Error}
use jsonrpsee.Types.Request.{Notification, Request, v2, MethodCall}
use jsonrpsee.Types.Response.{Response, SubscriptionNotif, SubscriptionId}
use jsonrpsee.Batches
use jsonrpsee.Batches.{BatchesState, BatchesEvent, BatchesElem, BatchesElemId, elem_id, Polled}
use jsonrpsee.WsServer.Transport
use jsonrpsee.WsServer.Transport.{WsTransportServer, TransportServerEvent, Event}

pub record SubscriptionState : Type 0 where
  pub raw_id : ℕ
  pub method : String
  pub pending : Bool

pub record RawServer (Value Key : Type 0) : Type 0 where
  pub raw : WsTransportServer Value
  pub batches : BatchesState Value (Option ℕ)
  pub subscriptions : Dict Key SubscriptionState
  pub num_subscriptions : Dict ℕ ℕ

pub data RawServerEvent (Value Key : Type 0) : Type 0 where
  notification : Notification Value → RawServerEvent Value Key
  request : BatchesElem Value (Option ℕ) → RawServerEvent Value Key
  subscriptions_ready : List Key → RawServerEvent Value Key
  subscriptions_closed : List Key → RawServerEvent Value Key

pub data IntoSubscriptionErr : Type 0 where
  not_supported closed : IntoSubscriptionErr

-- The end of one half of a round of the loop in `next_event`: it returns, goes on with the next
-- round, goes on to wait for the transport, or panics.
pub data Turn (Value Key : Type 0) : Type 0 where
  returned : RawServerEvent Value Key → RawServer Value Key → Turn Value Key
  again : RawServer Value Key → Turn Value Key
  pull : RawServer Value Key → Turn Value Key
  panic : Turn Value Key

-- `unwrap_or(false)`
abbrev pub can_resume : Result Bool (Unit {0}) → Bool
can_resume (ok b) = b
can_resume (err e) = false

-- a subscription on the connection of a request
abbrev pub is_on : ℕ → SubscriptionState → Bool
is_on raw s = s.raw_id == raw

-- `sub.pending = false` where the subscription is on that connection
abbrev pub make_ready : ℕ → SubscriptionState → SubscriptionState
make_ready raw s = if is_on raw s then record s { pending = false } else s

-- `*ud = None` where the parameter is that connection
abbrev pub forget : ℕ → Option ℕ → Option ℕ
forget raw none = none
forget raw (some r) = if r == raw then none else some r

-- the keys of the subscriptions on a connection
unfoldable pub keys_on : {Key : Type 0} → ℕ → Dict Key SubscriptionState → List Key
keys_on raw [] = []
keys_on raw ((k, s) ∷ d) = let rest = keys_on raw d in if is_on raw s then k ∷ rest else rest

-- one more in `num_subscriptions`
unfoldable pub count_up : ℕ → Dict ℕ ℕ → Dict ℕ ℕ
unfolding Dict.get Dict.insert
count_up id d = elim (Dict.get d id) [
  | none ↦ Dict.insert d id 1
  | some n ↦ Dict.insert d id (n + 1)
]

module _ {Key : Type 0} ⦃e : Eq Key⦄ where
  -- the loop that removes the subscriptions of a closed connection
  unfoldable pub remove_keys : List Key → Dict Key SubscriptionState → Dict Key SubscriptionState
  unfolding Dict.remove
  remove_keys [] d = d
  remove_keys (k ∷ ks) d = remove_keys ks (Dict.remove d k)

  -- the loop of `into_subscription`: the first of the random identifiers that is vacant
  unfoldable pub choose_key : List Key → Dict Key SubscriptionState → Option Key
  unfolding Dict.get
  choose_key [] d = none
  choose_key (k ∷ ks) d = let rest = choose_key ks d in if Dict.contains d k then rest else some k

module _ {Value Key : Type 0} ⦃e : Eq Key⦄ where
  -- `RawServer::new`
  unfoldable pub new : WsTransportServer Value → RawServer Value Key
  unfolding Batches.new
  new t = record { raw = t; batches = Batches.new; subscriptions = []; num_subscriptions = [] }

  -- the arm for `ReadyToSend` with a connection
  unfoldable pub send_ready : Response Value → ℕ → RawServer Value Key → Turn Value Key
  unfolding Dict.get Dict.map_values keys_on Transport.send_response Transport.finish
  send_ready r id s =
      if Dict.contains s.num_subscriptions id
      then returned (subscriptions_ready (keys_on id s.subscriptions)) (record s {
        raw = (Transport.send_response id r s.raw).1;
        subscriptions = Dict.map_values (make_ready id) s.subscriptions;
      })
      else again (record s { raw = (Transport.finish id (some r) s.raw).1 })

  -- `request_by_id(..).unwrap()` at the end of `next_event`
  show_request : Option (BatchesElem Value (Option ℕ)) → RawServer Value Key → Turn Value Key
  show_request none s = panic
  show_request (some x) s = returned (RawServerEvent.request x) s

  after_batches : Polled Value (Option ℕ) → RawServer Value Key → Turn Value Key
  unfolding send_ready show_request Batches.request_by_id
  after_batches none s = panic
  after_batches (some (none, b)) s = pull (record s { batches = b })
  after_batches (some (some (BatchesEvent.notification n u), b)) s =
      returned (notification n) (record s { batches = b })
  after_batches (some (some (BatchesEvent.request x), b)) s =
      show_request (Batches.request_by_id (elem_id x) b) (record s { batches = b })
  after_batches (some (some (BatchesEvent.ready_to_send r (some id)), b)) s =
      send_ready r id (record s { batches = b })
  after_batches (some (some (BatchesEvent.ready_to_send r none), b)) s =
      again (record s { batches = b })

  -- The first half of a round of `next_event`: `match self.batches.next_event()`. The keys stand in
  -- the order in which the table of batches iterates over them.
  unfoldable pub batch_turn : List ℕ → RawServer Value Key → Turn Value Key
  unfolding after_batches Batches.next_event
  batch_turn ks s = after_batches (Batches.next_event ks s.batches) s

  injected : Option (BatchesState Value (Option ℕ)) → RawServer Value Key → Turn Value Key
  injected none s = panic
  injected (some b) s = again (record s { batches = b })

  -- The second half of a round: `match self.raw.next_request().await`, given the event.
  unfoldable pub raw_turn : TransportServerEvent Value → RawServer Value Key → Turn Value Key
  unfolding injected remove_keys keys_on Dict.get Dict.remove Batches.inject Batches.map_params
  raw_turn (TransportServerEvent.request id rq) s =
      injected (Batches.inject rq (some id) s.batches) s
  raw_turn (TransportServerEvent.closed id) s =
      let s' : RawServer Value Key = record s {
        batches = Batches.map_params (forget id) s.batches;
      } in
      let ids = keys_on id s.subscriptions in
      if Dict.contains s.num_subscriptions id
      then returned (subscriptions_closed ids) (record s' {
        num_subscriptions = Dict.remove s.num_subscriptions id;
        subscriptions = remove_keys ids s.subscriptions;
      })
      else again s'

  respond_with :
      Option (BatchesState Value (Option ℕ)) → RawServer Value Key → Option (RawServer Value Key)
  respond_with none s = none
  respond_with (some b) s = some (record s { batches = b })

  -- `RawServerRequest::respond`
  unfoldable pub respond :
      BatchesElemId
      → Result Value (Error Value)
      → RawServer Value Key
      → Option (RawServer Value Key)
  unfolding respond_with Batches.set_response
  respond id r s = respond_with (Batches.set_response id r s.batches) s

  subscribed :
      Key
      → ℕ
      → MethodCall Value
      → Option (BatchesState Value (Option ℕ))
      → RawServer Value Key
      → Option (Result Key IntoSubscriptionErr × RawServer Value Key)
  unfolding Dict.insert count_up
  subscribed k id c none s = none
  subscribed k id c (some b) s = some (
    ok k,
    record s {
      batches = b;
      subscriptions =
          Dict.insert s.subscriptions k (record { raw_id = id; method = c.method; pending = true });
      num_subscriptions = count_up id s.num_subscriptions;
    },
  )

  -- what `into_subscription` does with the identifier that it has chosen
  subscribe_with :
      (Key → Value)
      → Option Key
      → ℕ
      → BatchesElem Value (Option ℕ)
      → Option (MethodCall Value)
      → RawServer Value Key
      → Option (Result Key IntoSubscriptionErr × RawServer Value Key)
  unfolding subscribed Batches.set_response
  subscribe_with encode none id x c s = none
  subscribe_with encode (some k) id x none s = none
  subscribe_with encode (some k) id x (some c) s =
      subscribed k id c (Batches.set_response (elem_id x) (ok (encode k)) s.batches) s

  into_subscription_on :
      (Key → Value)
      → List Key
      → Option ℕ
      → BatchesElem Value (Option ℕ)
      → RawServer Value Key
      → Option (Result Key IntoSubscriptionErr × RawServer Value Key)
  unfolding subscribe_with choose_key Transport.supports_resuming
  into_subscription_on encode randoms none x s = some (err IntoSubscriptionErr.closed, s)
  into_subscription_on encode randoms (some id) x s =
      if can_resume (Transport.supports_resuming id s.raw)
      then subscribe_with encode (choose_key randoms s.subscriptions) id x x.inner.elem s
      else some (err not_supported, s)

  -- `RawServerRequest::into_subscription`. The list holds the random identifiers that the loop draws;
  -- `none` is a panic, or that they end before a vacant one is found. `encode` turns an identifier
  -- into the text that the client gets.
  unfoldable pub into_subscription :
      (Key → Value)
      → List Key
      → BatchesElem Value (Option ℕ)
      → RawServer Value Key
      → Option (Result Key IntoSubscriptionErr × RawServer Value Key)
  unfolding into_subscription_on
  into_subscription encode randoms x s = into_subscription_on encode randoms x.user_param x s

  -- the message of `ServerSubscription::push`
  abbrev pub push_message : (Key → String) → Key → SubscriptionState → Value → Response Value
  push_message encode k sub message = Response.notif (record {
    jsonrpc = v2;
    method = sub.method;
    params = record { subscription = SubscriptionId.str (encode k); result = message };
  })

  push_with :
      (Key → String)
      → Key
      → Option SubscriptionState
      → Value
      → RawServer Value Key
      → Option (RawServer Value Key)
  unfolding Transport.send_response
  push_with encode k none message s = none
  push_with encode k (some sub) message s =
      if sub.pending
      then some s
      else some (record s {
        raw = (Transport.send_response sub.raw_id (push_message encode k sub message) s.raw).1;
      })

  -- `ServerSubscription::push`
  unfoldable pub push :
      (Key → String) → Key → Value → RawServer Value Key → Option (RawServer Value Key)
  unfolding push_with Dict.get
  push encode k message s = push_with encode k (Dict.get s.subscriptions k) message s

  close_count : SubscriptionState → Option ℕ → RawServer Value Key → Option (RawServer Value Key)
  unfolding Dict.insert Dict.remove Transport.finish
  close_count sub none s = none
  close_count sub (some n) s =
      if leb 2 n
      then some
          (record s { num_subscriptions = Dict.insert s.num_subscriptions sub.raw_id (n - 1) })
      else some (record s {
        num_subscriptions = Dict.remove s.num_subscriptions sub.raw_id;
        raw = if not sub.pending then (Transport.finish sub.raw_id none s.raw).1 else s.raw;
      })

  close_with : Key → Option SubscriptionState → RawServer Value Key → Option (RawServer Value Key)
  unfolding close_count Dict.get Dict.remove
  close_with k none s = none
  close_with k (some sub) s =
      close_count sub (Dict.get s.num_subscriptions sub.raw_id)
        (record s { subscriptions = Dict.remove s.subscriptions k })

  -- `ServerSubscription::close`; `none` is the panic of its `unwrap` or its `unreachable`.
  unfoldable pub close : Key → RawServer Value Key → Option (RawServer Value Key)
  unfolding close_with
  close k s = close_with k (Dict.get s.subscriptions k) s
