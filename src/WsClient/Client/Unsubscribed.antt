-- ===== src/WsClient/Client/Unsubscribed.antt =====
-- What becomes of the response to an unsubscription of the client (`SubscriptionClosed` of
-- ws-client/src/client.rs).
use mathlib.Core.List.{append-nil}
use jsonrpsee.Base.{
  ℕ, ◌+◌, ◌%◌, String, [], ◌∷◌, ◌++◌, Option, none, some, ◌≡◌, refl, arith, nat_eq,
}
use jsonrpsee.Base.Dict
use jsonrpsee.Base.Dict.{Dict}
use jsonrpsee.Base.Dict.Laws.{get-remove}
use jsonrpsee.Types.Params.{array}
use jsonrpsee.Types.Request.{Request, Call, CallId, v2, as_number}
use jsonrpsee.Types.Response.{Output, SubscriptionId, output_id}
use jsonrpsee.Batches.{u64_mod}
use jsonrpsee.WsClient.Manager.{
  Kind, subscription_id_eq, remove_subscription, remove_subscription_at,
}
use jsonrpsee.WsClient.Client.{
  Task, running, terminated, FrontToBack, transmit, start_impl, unsubscribe, on_removed,
  close_found, on_subscription_closed, on_front, on_response, after_response,
}
use jsonrpsee.WsClient.Processing.{World}
use jsonrpsee.WsClient.Processing.Once.{process_response-unknown}

module _ {V F C P S : Type 0} where
  -- The task after the user has dropped the subscription `s` of the request `id`, with `method` sent
  -- for it and `v` as the text of `s`.
  abbrev pub closed_task : SubscriptionId → ℕ → String → V → Task V F C P S → Task V F C P S
  closed_task s id method v t = record t {
    manager = record {
      requests = Dict.remove t.manager.requests id;
      subscriptions = Dict.remove t.manager.subscriptions s;
    };
    request_id = (t.request_id + 1) % u64_mod;
    sent =
        t.sent
        ++ (Request.single (
              Call.method_call (record {
                jsonrpc = v2;
                method = method;
                params = array (v ∷ []);
                id = CallId.num t.request_id;
              }))
            ∷ []);
  }

  pub on_front-closed :
      (render : SubscriptionId → Option V) (s : SubscriptionId) (id : ℕ) (sink : S)
      (method : String) (v : V) (w : World F S) (t : Task V F C P S)
      → Dict.get t.manager.subscriptions s ≡ some id
      → Dict.get t.manager.requests id ≡ some (Kind.subscription sink method)
      → render s ≡ some v
      → w.failure ≡ none
      → on_front render (some (FrontToBack.subscription_closed s)) w t
        ≡ running (closed_task s id method v t)
  unfolding on_front on_subscription_closed close_found on_removed unsubscribe start_impl transmit
      remove_subscription remove_subscription_at
  on_front-closed render s id sink method v w t active held text sends =
      rw (active, held, active, text, sends) refl

  rejected-terminates :
      (parse : V → Option SubscriptionId) (o : Output V) (w : World F S) (t : Task V F C P S)
      (j : ℕ)
      → as_number (output_id o) ≡ some j
      → Dict.get t.manager.requests j ≡ none
      → on_response parse o w t ≡ terminated t
  unfolding on_response after_response
  rejected-terminates parse o w t j number h =
      rw (process_response-unknown parse o w t.manager j number (rw h refl), append-nil t.delivered)
        refl

  -- When the subscription `s` of the request `id` is active and has a text `v`, the WebSocket takes
  -- the message, and the id of the next request is not in use, then dropping `s` takes it and its
  -- request out of the manager and sends the unsubscription with `v` under the id of the next
  -- request, which is then not in the manager, so that a response to the unsubscription ends the
  -- task.
  pub unsubscribed-terminates :
      (render : SubscriptionId → Option V) (parse : V → Option SubscriptionId) (s : SubscriptionId)
      (id : ℕ) (sink : S) (method : String) (v : V) (o : Output V) (w w' : World F S)
      (t : Task V F C P S)
      → Dict.get t.manager.subscriptions s ≡ some id
      → Dict.get t.manager.requests id ≡ some (Kind.subscription sink method)
      → render s ≡ some v
      → w.failure ≡ none
      → Dict.get t.manager.requests t.request_id ≡ none
      → as_number (output_id o) ≡ some t.request_id
      → (on_front render (some (FrontToBack.subscription_closed s)) w t
          ≡ running (closed_task s id method v t))
        × (Dict.get (closed_task s id method v t).manager.requests t.request_id ≡ none)
        × (on_response parse o w' (closed_task s id method v t)
            ≡ terminated (closed_task s id method v t))
  unsubscribed-terminates render parse s id sink method v o w w' t active held text sends fresh
        number =
      let absent : Dict.get (closed_task s id method v t).manager.requests t.request_id ≡ none =
        rw (get-remove t.manager.requests id t.request_id) (ground (arith, fresh)) in
      (
        on_front-closed render s id sink method v w t active held text sends,
        absent,
        rejected-terminates parse o w' (closed_task s id method v t) t.request_id number absent,
      )
