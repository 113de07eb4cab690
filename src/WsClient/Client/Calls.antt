-- ===== src/WsClient/Client/Calls.antt =====
-- Whole rounds of the client of ws-client/src/client.rs: a message of the front end and the server's
-- response to the request that it started.
use jsonrpsee.Base.{
  ℕ, ◌+◌, ◌%◌, String, [], ◌∷◌, ◌++◌, Option, none, some, true, ◌≡◌, refl, map_err, nat_eq,
  beq_refl, ◌∙◌,
}
use jsonrpsee.Base.Dict
use jsonrpsee.Base.Dict.{Dict}
use jsonrpsee.Base.Dict.Laws.{get-insert, remove-insert}
use jsonrpsee.Types.Errors.{ClientError}
use jsonrpsee.Types.Params.{Params}
use jsonrpsee.Types.Request.{Request, Call, CallId, v2, as_number}
use jsonrpsee.Types.Response.{Output, SubscriptionId, output_id, output_value}
use jsonrpsee.Batches.{u64_mod}
use jsonrpsee.WsClient.Manager.{
  Kind, subscription_id_eq, insert_pending_call, complete_pending_call, complete_call_at,
}
use jsonrpsee.WsClient.Client.{
  Task, running, FrontToBack, and_then, transmit, start_impl, call_inserted, on_call_started,
  on_front, on_response, after_response,
}
use jsonrpsee.WsClient.Processing.{
  World, call_result, process_response, process_numbered, process_status, answer_call,
}

module _ {V F C P S : Type 0} where
  -- The task after `start_request` has sent `method` with an id not in use, and `c` waits.
  abbrev pub waiting_task : String → Params V → C → Task V F C P S → Task V F C P S
  waiting_task method params c t = record {
    manager = record (t.manager) {
      requests = Dict.insert t.manager.requests t.request_id (Kind.pending_method_call c);
    };
    request_id = (t.request_id + 1) % u64_mod;
    sent =
        t.sent
        ++ (Request.single (
              Call.method_call (record {
                jsonrpc = v2;
                method = method;
                params = params;
                id = CallId.num t.request_id;
              }))
            ∷ []);
    delivered = t.delivered;
  }

  pub on_start_request :
      (render : SubscriptionId → Option V) (method : String) (params : Params V) (c : C)
      (w : World F S) (t : Task V F C P S)
      → w.failure ≡ none
      → Dict.get t.manager.requests t.request_id ≡ none
      → on_front render (some (FrontToBack.start_request method params c)) w t
        ≡ running (waiting_task method params c t)
  unfolding on_front on_call_started start_impl transmit insert_pending_call call_inserted
  on_start_request render method params c w t sends fresh = rw (sends, fresh) refl

  on_call_response :
      (parse : V → Option SubscriptionId) (o : Output V) (w : World F S) (t : Task V F C P S)
      (id : ℕ) (c : C)
      → Dict.get t.manager.requests id ≡ some (Kind.pending_method_call c)
      → as_number (output_id o) ≡ some id
      → w.listening ≡ true
      → on_response parse o w t
        ≡ running (record t {
          manager = record (t.manager) { requests = Dict.remove t.manager.requests id };
          delivered =
              t.delivered
              ++ (call_result c (map_err (λ e. ClientError.request e) (output_value o)) ∷ []);
        })
  unfolding on_response after_response process_response process_numbered process_status
      complete_pending_call complete_call_at answer_call
  on_call_response parse o w t id c at number there = rw (number, at, at, there) refl

  -- When the id of the next request is not in use, the WebSocket takes the message, the response has
  -- that id, and the caller still listens, then a call followed by its response gives the caller the
  -- response's result, sends that one request, and leaves the manager as it was.
  pub call-round :
      (render : SubscriptionId → Option V) (parse : V → Option SubscriptionId) (method : String)
      (params : Params V) (c : C) (o : Output V) (w w' : World F S) (t : Task V F C P S)
      → Dict.get t.manager.requests t.request_id ≡ none
      → w.failure ≡ none
      → as_number (output_id o) ≡ some t.request_id
      → w'.listening ≡ true
      → and_then
          (on_front render (some (FrontToBack.start_request method params c)) w t)
          (on_response parse o w')
        ≡ running (record (waiting_task method params c t) {
          manager = t.manager;
          delivered =
              t.delivered
              ++ (call_result c (map_err (λ e. ClientError.request e) (output_value o)) ∷ []);
        })
  call-round render parse method params c o w w' t fresh sends number there =
      rw
        (
          on_start_request render method params c w t sends fresh,
          on_call_response parse o w' (waiting_task method params c t) t.request_id c
              (get-insert t.manager.requests t.request_id t.request_id (Kind.pending_method_call c)
                ∙ rw (beq_refl t.request_id) refl)
              number there,
          remove-insert t.manager.requests t.request_id (Kind.pending_method_call c) fresh,
        )
        refl
