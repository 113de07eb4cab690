-- ===== src/WsServer/Server.antt =====
-- ws-server/src/server.rs: the front end's registrations, and the background task that dispatches
-- the events of `RawServer`. `Handler` is the type of the channels to the user's handlers. A function
-- that can panic returns an `Option`; debug assertions are not part of the functions.
pub mod Frontend
pub mod Events
pub mod Occurrences
pub mod Registration
pub mod Sequences
pub mod Sync
pub mod Closing
use jsonrpsee.Base.{
  ℕ, suc, ◌+◌, ◌%◌, String, List, [], ◌∷◌, ◌++◌, Option, none, some, Bool, true, false, not, Result,
  ok, err, is_none, nat_beq, if◌then◌else◌, Eq, ◌==◌, nat_eq, string_eq,
}
use jsonrpsee.Base.Int.{pos}
use jsonrpsee.Base.Dict
use jsonrpsee.Base.Dict.{Dict}
use jsonrpsee.Types.Codes.{ErrorCode}
use jsonrpsee.Types.Errors.{Error, ClientError, error_new}
use jsonrpsee.Types.Params.{Params, ParamKey, get_raw}
use jsonrpsee.Types.Request.{MethodCall, Notification}
use jsonrpsee.Batches
use jsonrpsee.Batches.{BatchesElem, BatchesElemId, elem_id, u64_mod}
use jsonrpsee.WsServer.RawServer
use jsonrpsee.WsServer.RawServer.{RawServer, RawServerEvent, IntoSubscriptionErr}

-- `FrontToBack`
pub data FrontToBack (Value Handler : Type 0) : Type 0 where
  register_notifications : String → Handler → Bool → FrontToBack Value Handler
  register_method : String → Handler → FrontToBack Value Handler
  answer_request : BatchesElemId → Result Value (Error Value) → FrontToBack Value Handler
  register_subscription : ℕ → String → String → FrontToBack Value Handler
  send_out_notif : ℕ → Value → FrontToBack Value Handler

-- What the task has sent on the handlers' channels.
pub data Dispatched (Value Handler : Type 0) : Type 0 where
  notified : Handler → Params Value → Dispatched Value Handler
  requested : Handler → BatchesElemId → Params Value → Dispatched Value Handler

-- The variables of `background_task`
pub record Task (Value Handler Key : Type 0) : Type 0 where
  pub server : RawServer Value Key
  pub registered_notifications : Dict String (Handler × Bool)
  pub registered_methods : Dict String Handler
  pub subscribe_methods : Dict String ℕ
  pub unsubscribe_methods : Dict String ℕ
  pub subscribed_clients : Dict ℕ (List Key)
  pub active_subscriptions : Dict Key ℕ
  pub dispatched : List (Dispatched Value Handler)

-- `clients.iter().filter(|c| **c == k).count()`
unfoldable pub occurrences : {Key : Type 0} ⦃e : Eq Key⦄ → Key → List Key → ℕ
occurrences k [] = 0
occurrences k (c ∷ cs) = let n = occurrences k cs in if c == k then suc n else n

-- `retain(|c| *c != k)`
unfoldable pub retain_other : {Key : Type 0} ⦃e : Eq Key⦄ → Key → List Key → List Key
retain_other k [] = []
retain_other k (c ∷ cs) = let rest = retain_other k cs in if c == k then rest else c ∷ rest

-- `position(|c| *c == k)`, then `remove`
unfoldable pub remove_first : {Key : Type 0} ⦃e : Eq Key⦄ → Key → List Key → List Key
remove_first k [] = []
remove_first k (c ∷ cs) = let rest = remove_first k cs in if c == k then cs else c ∷ rest

-- `RawServerSubscriptionId::try_from(params)`; `from_wire` is `from_wire_message`.
unfoldable pub key_of_params :
    {Value Key : Type 0} → (Value → Option Key) → Params Value → Option Key
unfolding get_raw
key_of_params from_wire params = elim (get_raw params (ParamKey.index 0)) [
  | some v ↦ from_wire v
  | none ↦ elim (get_raw params (ParamKey.string "subscription")) [
    | some v ↦ from_wire v
    | none ↦ none
  ]
]

module _ {Value Key : Type 0} ⦃e : Eq Key⦄ where
  push_known : (Key → String) → Key → Value → RawServer Value Key → Option (RawServer Value Key)
  unfolding RawServer.push Dict.get
  push_known encode k v s =
      if Dict.contains s.subscriptions k then RawServer.push encode k v s else some s

  abbrev push_rest :
      Option (RawServer Value Key)
      → (RawServer Value Key → Option (RawServer Value Key))
      → Option (RawServer Value Key)
  push_rest none f = none
  push_rest (some s) f = f s

  -- the loop over the clients of a subscription: `push` on each one that the server knows
  unfoldable pub push_all :
      (Key → String) → Value → List Key → RawServer Value Key → Option (RawServer Value Key)
  unfolding push_known
  push_all encode v [] s = some s
  push_all encode v (k ∷ ks) s = push_rest (push_known encode k v s) (λ s'. push_all encode v ks s')

module _ {Value Handler Key : Type 0} ⦃e : Eq Key⦄ where
  with_server :
      Option (RawServer Value Key) → Task Value Handler Key → Option (Task Value Handler Key)
  with_server none t = none
  with_server (some s) t = some (record t { server = s })

  answer_found :
      BatchesElemId
      → Result Value (Error Value)
      → Option (BatchesElem Value (Option ℕ))
      → Task Value Handler Key
      → Option (Task Value Handler Key)
  unfolding RawServer.respond with_server
  answer_found id r none t = none
  answer_found id r (some x) t = with_server (RawServer.respond (elem_id x) r t.server) t

  send_to :
      (Key → String)
      → Value
      → Option (List Key)
      → Task Value Handler Key
      → Option (Task Value Handler Key)
  unfolding push_all with_server
  send_to encode v none t = some t
  send_to encode v (some clients) t = with_server (push_all encode v clients t.server) t

  -- The arms `Either::Left(Some(..))`
  unfoldable pub on_front :
      (Key → String)
      → FrontToBack Value Handler
      → Task Value Handler Key
      → Option (Task Value Handler Key)
  unfolding answer_found send_to Batches.request_by_id Dict.get Dict.insert
  on_front encode (FrontToBack.answer_request id r) t =
      answer_found id r (Batches.request_by_id id t.server.batches) t
  on_front encode (FrontToBack.register_notifications name h allow_losses) t = some (record t {
    registered_notifications = Dict.insert t.registered_notifications name (h, allow_losses);
  })
  on_front encode (FrontToBack.register_method name h) t =
      some (record t { registered_methods = Dict.insert t.registered_methods name h })
  on_front encode (FrontToBack.register_subscription id subscribe unsubscribe) t = some (record t {
    subscribe_methods = Dict.insert t.subscribe_methods subscribe id;
    unsubscribe_methods = Dict.insert t.unsubscribe_methods unsubscribe id;
    subscribed_clients = Dict.insert t.subscribed_clients id [];
  })
  on_front encode (FrontToBack.send_out_notif id v) t =
      send_to encode v (Dict.get t.subscribed_clients id) t
