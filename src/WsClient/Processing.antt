-- ===== src/WsClient/Processing.antt =====
-- `process_response` of ws-client/src/client.rs. What other code answers is a value of `World`: whether
-- the WebSocket takes a message, whether somebody still listens on a channel, whether a subscription's
-- channel takes a notification, and the channel that `mpsc::channel` makes.
pub mod Responses
pub mod Once
use jsonrpsee.Base.{
  ℕ, suc, ◌+◌, ◌%◌, String, List, [], ◌∷◌, ◌++◌, Option, none, some, Bool, true, false, Result, ok,
  err, map_err, is_none, if◌then◌else◌,
}
use jsonrpsee.Types.Errors.{Error, ClientError}
use jsonrpsee.Types.Params.{Params, array}
use jsonrpsee.Types.Request.{Request, Call, MethodCall, Notification, CallId, v2, as_number}
use jsonrpsee.Types.Response.{
  Output, Response, SubscriptionId, SubscriptionNotif, output_id, output_value,
}
use jsonrpsee.Batches.{u64_mod}
use jsonrpsee.WsClient.Manager
use jsonrpsee.WsClient.Manager.{RequestManager, RequestStatus, request_status}

-- What the task has sent on the front-end's channels.
pub data Delivery (Value Foreign CallSink SubscribeSink Sink : Type 0) : Type 0 where
  call_result :
      CallSink
      → Result Value (ClientError Value Foreign)
      → Delivery Value Foreign CallSink SubscribeSink Sink
  subscribe_result :
      SubscribeSink
      → Result (Sink × SubscriptionId) (ClientError Value Foreign)
      → Delivery Value Foreign CallSink SubscribeSink Sink
  item : Sink → Value → Delivery Value Foreign CallSink SubscribeSink Sink

pub record World (Foreign Sink : Type 0) : Type 0 where
  pub failure : Option Foreign
  pub listening : Bool
  pub accepts : Bool
  pub channel : Sink

-- The outcome of `process_response`: the manager, what was delivered, and the result.
abbrev pub Processed : Type 0 → Type 0 → Type 0 → Type 0 → Type 0 → Type 0
Processed V F C P S =
    RequestManager C P S
    × List (Delivery V F C P S)
    × Result (Option (String × Params V)) (ClientError V F)

module _ {V F C P S : Type 0} where
  -- `send` on the one-shot channel of a subscription request, with an error.
  unfoldable pub refuse :
      P → (ClientError V F) → World F S → (RequestManager C P S) → Processed V F C P S
  refuse p e w m =
      if w.listening then (m, subscribe_result p (err e) ∷ [], ok none) else (m, [], err e)

  -- The arm `PendingMethodCall` of `process_response`
  unfoldable pub answer_call :
      Result V (Error V) → World F S → Option C × (RequestManager C P S) → Processed V F C P S
  answer_call r w (none, m) = (m, [], err ClientError.invalid_request_id)
  answer_call r w (some c, m) =
      if w.listening
      then (m, call_result c (map_err (λ e. ClientError.request e) r) ∷ [], ok none)
      else elim r [
        | err e ↦ (m, [], err (ClientError.request e))
        | ok v ↦ (m, [], err (ClientError.custom "Frontend channel closed"))
      ]

  -- After `remove_subscription` on the branch where nobody listens; `none` is the panic of `expect`.
  unfoldable pub unsubscribe_with :
      V → Option (S × String) × (RequestManager C P S) → Option (Processed V F C P S)
  unsubscribe_with v (none, m) = none
  unsubscribe_with v (some (s, unsubscribe), m) =
      some (m, [], ok (some (unsubscribe, array (v ∷ []))))

  -- After `insert_subscription`
  unfoldable pub announce :
      ℕ
      → SubscriptionId
      → V
      → P
      → World F S
      → Result {0, 0} Unit S × (RequestManager C P S)
      → Option (Processed V F C P S)
  announce id sub_id v p w (ok u, m) =
      if w.listening
      then some (m, subscribe_result p (ok (w.channel, sub_id)) ∷ [], ok none)
      else unsubscribe_with v (Manager.remove_subscription id sub_id m)
  announce id sub_id v p w (err s, m) = some (refuse p ClientError.invalid_subscription_id w m)

  -- After `from_value` on the result of a subscription request
  unfoldable pub activate_as :
      ℕ
      → V
      → World F S
      → P
      → String
      → RequestManager C P S
      → Option SubscriptionId
      → Option (Processed V F C P S)
  activate_as id v w p u m none = some (refuse p ClientError.invalid_subscription_id w m)
  activate_as id v w p u m (some sub_id) =
      announce id sub_id v p w (Manager.insert_subscription id sub_id w.channel u m)

  -- The arm `PendingSubscription` of `process_response`; `parse` is `from_value` to a subscription id.
  unfoldable pub activate :
      (V → Option SubscriptionId)
      → ℕ
      → Result V (Error V)
      → World F S
      → Option (P × String) × (RequestManager C P S)
      → Option (Processed V F C P S)
  activate parse id r w (none, m) = some (m, [], err ClientError.invalid_request_id)
  activate parse id (err e) w (some (p, u), m) = some (refuse p (ClientError.request e) w m)
  activate parse id (ok v) w (some (p, u), m) = activate_as id v w p u m (parse v)

  -- `process_response` on a response whose id is a number
  unfoldable pub process_status :
      (V → Option SubscriptionId)
      → ℕ
      → Result V (Error V)
      → World F S
      → (RequestManager C P S)
      → RequestStatus
      → Option (Processed V F C P S)
  process_status parse id r w m RequestStatus.pending_method_call =
      some (answer_call r w (Manager.complete_pending_call id m))
  process_status parse id r w m RequestStatus.pending_subscription =
      activate parse id r w (Manager.complete_pending_subscription id m)
  process_status parse id r w m RequestStatus.subscription =
      some (m, [], err ClientError.invalid_request_id)
  process_status parse id r w m RequestStatus.invalid =
      some (m, [], err ClientError.invalid_request_id)

  unfoldable pub process_numbered :
      (V → Option SubscriptionId)
      → Option ℕ
      → Result V (Error V)
      → World F S
      → RequestManager C P S
      → Option (Processed V F C P S)
  process_numbered parse none r w m = some (m, [], err ClientError.invalid_request_id)
  process_numbered parse (some id) r w m = process_status parse id r w m (request_status id m)

  -- `process_response`; `none` is a panic.
  unfoldable pub process_response :
      (V → Option SubscriptionId)
      → Output V
      → World F S
      → RequestManager C P S
      → Option (Processed V F C P S)
  unfolding as_number output_id output_value
  process_response parse o w m =
      process_numbered parse (as_number (output_id o)) (output_value o) w m
