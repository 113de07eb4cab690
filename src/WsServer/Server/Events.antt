-- ===== src/WsServer/Server/Events.antt =====
-- The arms of the background task of ws-server/src/server.rs for the events of `RawServer`.
use jsonrpsee.Base.{
  ℕ, List, [], ◌∷◌, ◌++◌, Option, none, some, Bool, Result, ok, err, if◌then◌else◌, Eq, ◌==◌,
  nat_eq, string_eq,
}
use jsonrpsee.Base.Int.{pos}
use jsonrpsee.Base.Dict
use jsonrpsee.Base.Dict.{Dict}
use jsonrpsee.Types.Codes.{ErrorCode}
use jsonrpsee.Types.Errors.{error_new}
use jsonrpsee.Types.Request.{MethodCall, Notification}
use jsonrpsee.Batches.{BatchesElem, elem_id}
use jsonrpsee.WsServer.RawServer
use jsonrpsee.WsServer.RawServer.{RawServer, RawServerEvent, IntoSubscriptionErr}
use jsonrpsee.WsServer.Server.{
  Task, notified, requested, occurrences, retain_other, remove_first, key_of_params, with_server,
}

-- `clients.push(sub_id)`
unfoldable pub push_client :
    {Key : Type 0} → ℕ → Key → Option (List Key) → Dict ℕ (List Key) → Dict ℕ (List Key)
unfolding Dict.insert
push_client u k none d = d
push_client u k (some clients) d = Dict.insert d u (clients ++ (k ∷ []))

module _ {Value Handler Key : Type 0} ⦃e : Eq Key⦄ where
  -- The arm `Notification`. `takes` says whether the channel to the handler takes a message.
  unfoldable pub on_notification :
      Bool
      → Notification Value
      → Option (Handler × Bool)
      → Task Value Handler Key
      → Task Value Handler Key
  on_notification takes n none t = t
  on_notification takes n (some (h, allow_losses)) t =
      if takes then record t { dispatched = t.dispatched ++ (notified h n.params ∷ []) } else t

  -- A request for a method of the user
  unfoldable pub call_handler :
      Bool
      → BatchesElem Value (Option ℕ)
      → MethodCall Value
      → Handler
      → Task Value Handler Key
      → Option (Task Value Handler Key)
  unfolding RawServer.respond with_server error_new
  call_handler takes x c h t =
      if takes
      then some (record t { dispatched = t.dispatched ++ (requested h (elem_id x) c.params ∷ []) })
      else with_server
          (RawServer.respond (elem_id x) (err (error_new (ErrorCode.server_error (pos 0))))
            t.server)
          t

  -- `clients.push(sub_id)` and `active_subscriptions.insert`
  unfoldable pub add_client : Key → ℕ → Task Value Handler Key → Task Value Handler Key
  unfolding push_client Dict.get Dict.insert
  add_client k u t = record t {
    subscribed_clients = push_client u k (Dict.get t.subscribed_clients u) t.subscribed_clients;
    active_subscriptions = Dict.insert t.active_subscriptions k u;
  }

  subscribed :
      ℕ
      → Option (Result Key IntoSubscriptionErr × RawServer Value Key)
      → Task Value Handler Key
      → Option (Task Value Handler Key)
  unfolding add_client
  subscribed u none t = none
  subscribed u (some (ok k, s)) t = some (add_client k u (record t { server = s }))
  subscribed u (some (err f, s)) t = some (record t { server = s })

  unfoldable pub drop_found :
      Key → ℕ → Option (List Key) → Task Value Handler Key → Task Value Handler Key
  unfolding remove_first Dict.insert Dict.remove
  drop_found k u none t = t
  drop_found k u (some clients) t = record t {
    subscribed_clients = Dict.insert t.subscribed_clients u (remove_first k clients);
    active_subscriptions = Dict.remove t.active_subscriptions k;
  }

  -- The unsubscription of `k` by the unsubscribe method of `u`
  unfoldable pub drop_client : Key → ℕ → Task Value Handler Key → Task Value Handler Key
  unfolding drop_found Dict.get
  drop_client k u t = drop_found k u (Dict.get t.subscribed_clients u) t

  unsubscribed : ℕ → Option Key → Task Value Handler Key → Task Value Handler Key
  unfolding drop_client
  unsubscribed u none t = t
  unsubscribed u (some k) t = drop_client k u t

  -- A request that no method, subscription or unsubscription is registered for
  refuse : BatchesElem Value (Option ℕ) → Task Value Handler Key → Option (Task Value Handler Key)
  unfolding RawServer.respond with_server error_new
  refuse x t =
      with_server
        (RawServer.respond (elem_id x) (err (error_new ErrorCode.method_not_found)) t.server) t

  on_unsubscribe :
      (Value → Option Key)
      → BatchesElem Value (Option ℕ)
      → MethodCall Value
      → Option ℕ
      → Task Value Handler Key
      → Option (Task Value Handler Key)
  unfolding refuse unsubscribed key_of_params
  on_unsubscribe from_wire x c none t = refuse x t
  on_unsubscribe from_wire x c (some u) t =
      some (unsubscribed u (key_of_params from_wire c.params) t)

  on_subscribe :
      (Key → Value)
      → (Value → Option Key)
      → List Key
      → BatchesElem Value (Option ℕ)
      → MethodCall Value
      → Option ℕ
      → Task Value Handler Key
      → Option (Task Value Handler Key)
  unfolding on_unsubscribe RawServer.into_subscription subscribed Dict.get
  on_subscribe encode from_wire randoms x c none t =
      on_unsubscribe from_wire x c (Dict.get t.unsubscribe_methods c.method) t
  on_subscribe encode from_wire randoms x c (some u) t =
      subscribed u (RawServer.into_subscription encode randoms x t.server) t

  on_call :
      (Key → Value)
      → (Value → Option Key)
      → List Key
      → Bool
      → BatchesElem Value (Option ℕ)
      → MethodCall Value
      → Option Handler
      → Task Value Handler Key
      → Option (Task Value Handler Key)
  unfolding call_handler on_subscribe Dict.get
  on_call encode from_wire randoms takes x c (some h) t = call_handler takes x c h t
  on_call encode from_wire randoms takes x c none t =
      on_subscribe encode from_wire randoms x c (Dict.get t.subscribe_methods c.method) t

  -- The arm `Request`. `encode` and `from_wire` turn a subscription's identifier into a value and
  -- back; `randoms` are the identifiers that `into_subscription` draws.
  unfoldable pub on_request :
      (Key → Value)
      → (Value → Option Key)
      → List Key
      → Bool
      → BatchesElem Value (Option ℕ)
      → Option (MethodCall Value)
      → Task Value Handler Key
      → Option (Task Value Handler Key)
  unfolding on_call Dict.get
  on_request encode from_wire randoms takes x none t = none
  on_request encode from_wire randoms takes x (some c) t =
      on_call encode from_wire randoms takes x c (Dict.get t.registered_methods c.method) t

  unfoldable pub closed_clients :
      Key → ℕ → Option (List Key) → Task Value Handler Key → Option (Task Value Handler Key)
  unfolding occurrences retain_other Dict.insert
  closed_clients k u none t = some t
  closed_clients k u (some clients) t =
      if occurrences k clients == 1
      then some (record t {
        subscribed_clients = Dict.insert t.subscribed_clients u (retain_other k clients);
      })
      else none

  unfoldable pub closed_found :
      Key → Option ℕ → Task Value Handler Key → Option (Task Value Handler Key)
  unfolding closed_clients Dict.remove Dict.get
  closed_found k none t = some t
  closed_found k (some u) t =
      closed_clients k u (Dict.get t.subscribed_clients u)
        (record t { active_subscriptions = Dict.remove t.active_subscriptions k })

  -- One turn of the loop in the arm `SubscriptionsClosed`; `none` is the panic of its `assert_eq`.
  unfoldable pub close_client : Key → Task Value Handler Key → Option (Task Value Handler Key)
  unfolding closed_found Dict.get
  close_client k t = closed_found k (Dict.get t.active_subscriptions k) t

  abbrev pub and_next :
      Option (Task Value Handler Key)
      → (Task Value Handler Key → Option (Task Value Handler Key))
      → Option (Task Value Handler Key)
  and_next none f = none
  and_next (some t) f = f t

  -- The arm `SubscriptionsClosed`
  unfoldable pub close_clients : List Key → Task Value Handler Key → Option (Task Value Handler Key)
  unfolding close_client
  close_clients [] t = some t
  close_clients (k ∷ ks) t = and_next (close_client k t) (λ t'. close_clients ks t')

  -- The arms `Either::Right`
  unfoldable pub on_event :
      (Key → Value)
      → (Value → Option Key)
      → List Key
      → Bool
      → RawServerEvent Value Key
      → Task Value Handler Key
      → Option (Task Value Handler Key)
  unfolding on_notification on_request close_clients Dict.get
  on_event encode from_wire randoms takes (RawServerEvent.notification n) t =
      some (on_notification takes n (Dict.get t.registered_notifications n.method) t)
  on_event encode from_wire randoms takes (RawServerEvent.request x) t =
      on_request encode from_wire randoms takes x x.inner.elem t
  on_event encode from_wire randoms takes (RawServerEvent.subscriptions_ready ks) t = some t
  on_event encode from_wire randoms takes (RawServerEvent.subscriptions_closed ks) t =
      close_clients ks t
