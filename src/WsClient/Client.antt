-- ===== src/WsClient/Client.antt =====
-- The background task of ws-client/src/client.rs, with the sender of
-- ws-client/src/jsonrpc_transport.rs. A `World` holds for one handler; in a batch of responses there is
-- one for each response.
pub mod Rounds
pub mod Calls
pub mod Unsubscribed
use jsonrpsee.Base.{
  ℕ, suc, ◌+◌, ◌%◌, String, List, [], ◌∷◌, ◌++◌, Option, none, some, Bool, true, false, Result, ok,
  err, map_err, is_none, if◌then◌else◌,
}
use jsonrpsee.Types.Errors.{Error, ClientError}
use jsonrpsee.Types.Params.{Params, array}
use jsonrpsee.Types.Request.{Request, Call, MethodCall, Notification, CallId, v2, as_number}
use jsonrpsee.Types.Response.{
  Output, Response, SubscriptionId, SubscriptionNotif, output_id, output_value,
}
use jsonrpsee.Batches.{u64_mod}
use jsonrpsee.WsClient.Manager
use jsonrpsee.WsClient.Processing.{
  Delivery, call_result, subscribe_result, item, World, Processed, process_response,
}
use jsonrpsee.WsClient.Manager.{RequestManager, RequestStatus, request_status}

-- `FrontToBack`
pub data FrontToBack (Value CallSink SubscribeSink : Type 0) : Type 0 where
  notification : String → Params Value → FrontToBack Value CallSink SubscribeSink
  start_request : String → Params Value → CallSink → FrontToBack Value CallSink SubscribeSink
  subscribe :
      String → Params Value → String → SubscribeSink → FrontToBack Value CallSink SubscribeSink
  subscription_closed : SubscriptionId → FrontToBack Value CallSink SubscribeSink

-- The task's variables: `manager`, `sender.request_id`, and what went out.
pub record Task (Value Foreign CallSink SubscribeSink Sink : Type 0) : Type 0 where
  pub manager : RequestManager CallSink SubscribeSink Sink
  pub request_id : ℕ
  pub sent : List (Request Value)
  pub delivered : List (Delivery Value Foreign CallSink SubscribeSink Sink)

-- How a handler ends: the loop goes on, the task ends, or an `expect` panics.
pub data Flow (T : Type 0) : Type 0 where
  running : T → Flow T
  terminated : T → Flow T
  panicked : Flow T

-- The next turn of a loop, when the last one lets it go on.
abbrev pub and_then : {T : Type 0} → Flow T → (T → Flow T) → Flow T
and_then (running t) f = f t
and_then (terminated t) f = terminated t
and_then panicked f = panicked

-- `send_request(request).await?; Ok(id)`
abbrev pub outcome_of : {F : Type 0} → Option F → ℕ → Result ℕ F
outcome_of (some f) id = err f
outcome_of none id = ok id

module _ {V F C P S : Type 0} where
  -- `transport.send_request`
  unfoldable pub transmit : Request V → World F S → (Task V F C P S) → Task V F C P S
  transmit rq w t = if is_none w.failure then record t { sent = t.sent ++ (rq ∷ []) } else t

  -- `Sender::start_impl`, also `start_request` and `start_subscription`
  unfoldable pub start_impl :
      String → Params V → World F S → (Task V F C P S) → Result ℕ F × (Task V F C P S)
  start_impl method params w t =
      let t' : Task V F C P S = record t { request_id = (t.request_id + 1) % u64_mod } in
      let rq : Request V = Request.single (
        Call.method_call (record {
          jsonrpc = v2;
          method = method;
          params = params;
          id = CallId.num t.request_id;
        })) in
      (outcome_of w.failure t.request_id, transmit rq w t')

  -- `Sender::send_notification`
  unfoldable pub send_notification :
      String → Params V → World F S → (Task V F C P S) → Task V F C P S
  send_notification method params w t =
      transmit
        (Request.single
          (Call.notification (record { jsonrpc = v2; method = method; params = params })))
        w t

  -- A channel's `send`: nothing arrives when nobody listens.
  unfoldable pub deliver : (Delivery V F C P S) → World F S → (Task V F C P S) → Task V F C P S
  deliver d w t = if w.listening then record t { delivered = t.delivered ++ (d ∷ []) } else t

  -- The arm `StartRequest`, after `insert_pending_call`
  unfoldable pub call_inserted :
      World F S → Task V F C P S → Result {0, 0} Unit C × RequestManager C P S → Task V F C P S
  call_inserted w t (ok x, m) = record t { manager = m }
  call_inserted w t (err c, m) =
      deliver (call_result c (err ClientError.duplicate_request_id)) w (record t { manager = m })

  -- The arm `StartRequest`, after `start_request`
  unfoldable pub on_call_started : C → World F S → Result ℕ F × Task V F C P S → Task V F C P S
  on_call_started c w (err f, t) = deliver (call_result c (err (ClientError.transport_error f))) w t
  on_call_started c w (ok id, t) = call_inserted w t (Manager.insert_pending_call id c t.manager)

  -- The arm `Subscribe`, after `insert_pending_subscription`
  unfoldable pub subscription_inserted :
      World F S → Task V F C P S → Result {0, 0} Unit P × RequestManager C P S → Task V F C P S
  subscription_inserted w t (ok x, m) = record t { manager = m }
  subscription_inserted w t (err p, m) =
      deliver (subscribe_result p (err ClientError.duplicate_request_id)) w
        (record t { manager = m })

  -- The arm `Subscribe`, after `start_subscription`
  unfoldable pub on_subscription_started :
      P → String → World F S → Result ℕ F × Task V F C P S → Task V F C P S
  on_subscription_started p u w (err f, t) =
      deliver (subscribe_result p (err (ClientError.transport_error f))) w t
  on_subscription_started p u w (ok id, t) =
      subscription_inserted w t (Manager.insert_pending_subscription id p u t.manager)

  -- The arm `SubscriptionClosed`, after `to_value`
  unfoldable pub unsubscribe : String → World F S → Task V F C P S → Option V → Task V F C P S
  unsubscribe method w t none = t
  unsubscribe method w t (some v) = (start_impl method (array (v ∷ [])) w t).1

  -- The arm `SubscriptionClosed`, after `remove_subscription`; `render` is `to_value`.
  unfoldable pub on_removed :
      (SubscriptionId → Option V)
      → SubscriptionId
      → World F S
      → Task V F C P S
      → Option (S × String) × (RequestManager C P S)
      → Task V F C P S
  on_removed render sub_id w t (none, m) = record t { manager = m }
  on_removed render sub_id w t (some (s, method), m) =
      unsubscribe method w (record t { manager = m }) (render sub_id)

  unfoldable pub close_found :
      (SubscriptionId → Option V)
      → SubscriptionId
      → World F S
      → Task V F C P S
      → Option ℕ
      → Task V F C P S
  close_found render sub_id w t none = t
  close_found render sub_id w t (some id) =
      on_removed render sub_id w t (Manager.remove_subscription id sub_id t.manager)

  -- The arm `SubscriptionClosed`
  unfoldable pub on_subscription_closed :
      (SubscriptionId → Option V) → SubscriptionId → World F S → Task V F C P S → Task V F C P S
  on_subscription_closed render sub_id w t =
      close_found render sub_id w t (Manager.get_request_id_by_subscription_id sub_id t.manager)

  -- The arms of `next_frontend`
  unfoldable pub on_front :
      (SubscriptionId → Option V)
      → Option (FrontToBack V C P)
      → World F S
      → (Task V F C P S)
      → Flow (Task V F C P S)
  on_front render none w t = terminated t
  on_front render (some (FrontToBack.notification method params)) w t =
      running (send_notification method params w t)
  on_front render (some (FrontToBack.start_request method params c)) w t =
      running (on_call_started c w (start_impl method params w t))
  on_front render (some (FrontToBack.subscribe method params unsubscribe p)) w t =
      running (on_subscription_started p unsubscribe w (start_impl method params w t))
  on_front render (some (FrontToBack.subscription_closed sub_id)) w t =
      running (on_subscription_closed render sub_id w t)

  -- What the loop does with the result of `process_response`
  unfoldable pub after_response :
      World F S → (Task V F C P S) → Option (Processed V F C P S) → Flow (Task V F C P S)
  after_response w t none = panicked
  after_response w t (some (m, out, ok none)) =
      running (record t { manager = m; delivered = t.delivered ++ out })
  after_response w t (some (m, out, ok (some (unsubscribe, params)))) =
      running
        (start_impl unsubscribe params w
          (record t { manager = m; delivered = t.delivered ++ out })).1
  after_response w t (some (m, out, err e)) =
      terminated (record t { manager = m; delivered = t.delivered ++ out })

  unfoldable pub on_response :
      (V → Option SubscriptionId) → Output V → World F S → (Task V F C P S) → Flow (Task V F C P S)
  on_response parse o w t = after_response w t (process_response parse o w t.manager)

  -- The loop over a batch of responses; `worlds k` is what holds for the `k`-th.
  unfoldable pub on_responses :
      (V → Option SubscriptionId)
      → List (Output V)
      → (ℕ → World F S)
      → Task V F C P S
      → Flow (Task V F C P S)
  on_responses parse [] worlds t = running t
  on_responses parse (o ∷ os) worlds t =
      and_then (on_response parse o (worlds 0) t)
        (λ t'. on_responses parse os (λ k. worlds (k + 1)) t')

  -- The arm `Notif`, after `try_send` has failed: `expect` on `remove_subscription`
  unfoldable pub on_dropped :
      (Task V F C P S) → Option (S × String) × (RequestManager C P S) → Flow (Task V F C P S)
  on_dropped t (none, m) = panicked
  on_dropped t (some s, m) = running (record t { manager = m })

  unfoldable pub notify :
      SubscriptionNotif V → World F S → Task V F C P S → ℕ → Option S → Flow (Task V F C P S)
  notify n w t id none = running t
  notify n w t id (some sink) =
      if w.accepts
      then running (record t { delivered = t.delivered ++ (item sink n.params.result ∷ []) })
      else on_dropped t (Manager.remove_subscription id n.params.subscription t.manager)

  unfoldable pub notify_found :
      SubscriptionNotif V → World F S → Task V F C P S → Option ℕ → Flow (Task V F C P S)
  notify_found n w t none = running t
  notify_found n w t (some id) = notify n w t id (Manager.as_subscription_mut id t.manager)

  -- The arm `Notif`
  unfoldable pub on_notif : SubscriptionNotif V → World F S → Task V F C P S → Flow (Task V F C P S)
  on_notif n w t =
      notify_found n w t (Manager.get_request_id_by_subscription_id n.params.subscription t.manager)

  -- The arms of `next_backend`
  unfoldable pub on_back :
      (V → Option SubscriptionId)
      → Option (Result (Response V) F)
      → (ℕ → World F S)
      → (Task V F C P S)
      → Flow (Task V F C P S)
  on_back parse none worlds t = terminated t
  on_back parse (some (err e)) worlds t = terminated t
  on_back parse (some (ok (Response.single o))) worlds t = on_response parse o (worlds 0) t
  on_back parse (some (ok (Response.batch os))) worlds t = on_responses parse os worlds t
  on_back parse (some (ok (Response.notif n))) worlds t = on_notif n (worlds 0) t
