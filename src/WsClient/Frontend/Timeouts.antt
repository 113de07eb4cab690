-- ===== src/WsClient/Frontend/Timeouts.antt =====
-- What becomes of a request of ws-client/src/client.rs, in the end and when its timer runs out.
use jsonrpsee.Base.{
  ℕ, String, [], ◌∷◌, ◌++◌, Option, none, some, Bool, true, false, Result, ok, err, map_err, ◌≡◌,
  ◌↔◌, ◌⊎◌, inl, inr, refl, arith, nat_eq, beq_refl, ◌∙◌,
}
use jsonrpsee.Base.Dict
use jsonrpsee.Base.Dict.Laws.{get-insert}
use jsonrpsee.Types.Errors.{ClientError, Error}
use jsonrpsee.Types.Params.{Params}
use jsonrpsee.Types.Request.{as_number}
use jsonrpsee.Types.Response.{Output, SubscriptionId, output_id, output_value}
use jsonrpsee.WsClient.Manager.{RequestManager, Kind, complete_pending_call, complete_call_at}
use jsonrpsee.WsClient.Client.{
  Task, terminated, FrontToBack, and_then, on_front, on_response, after_response,
}
use jsonrpsee.WsClient.Client.Calls.{on_start_request, waiting_task}
use jsonrpsee.WsClient.Processing.{
  World, process_response, process_numbered, process_status, answer_call,
}
use jsonrpsee.WsClient.Frontend.{
  WsClient, Waited, received, canceled, wait, send_to_back, answer_of, parse_value, reply_of,
  await_reply, request,
}

wait_iff :
    {R : Type 0} (timer : Option ℕ) (late : Bool) (out : Waited R) (x : Waited R)
    → (wait timer late out ≡ some x) ↔ (((timer ≡ none) ⊎ (late ≡ false)) × (out ≡ x))
unfolding wait
wait_iff none late out x = (λ h. (inl refl, ground (arith, h)), λ (a, h). rw h refl)
wait_iff (some d) true out x = (λ h. cc, λ (a, h). elim a [ inl e ↦ cc | inr e ↦ cc ])
wait_iff (some d) false out x = (λ h. (inr refl, ground (arith, h)), λ (a, h). rw h refl)

module _ {V R F : Type 0} where
  map_err-ok : (f : F → ClientError V F) (x : Result R F) (r : R) → map_err f x ≡ ok r → x ≡ ok r
  map_err-ok f (ok a) r h = ground (arith, h)
  map_err-ok f (err e) r h = cc

  reply_iff :
      (from_value : V → Result R F) (gone : F) (o : Option (Waited (Result V (ClientError V F))))
      (r : R)
      → (reply_of from_value gone o ≡ ok r)
        ↔ ((v : V) × (o ≡ some (received (ok v))) × (from_value v ≡ ok r))
  unfolding reply_of parse_value answer_of
  reply_iff from_value gone none r = (λ h. cc, λ (v, e, h). cc)
  reply_iff from_value gone (some canceled) r = (λ h. cc, λ (v, e, h). cc)
  reply_iff from_value gone (some (received (err x))) r = (λ h. cc, λ (v, e, h). cc)
  reply_iff from_value gone (some (received (ok a))) r = (
    λ h. (a, refl, map_err-ok _ (from_value a) r h),
    λ (v, e, h). let p : a ≡ v = ground (arith, e) in rw (p, h) refl,
  )

module _ {V F C P S : Type 0} where
  answer_away :
      (x : Result V (Error V)) (w : World F S) (c : C) (m : RequestManager C P S)
      → w.listening ≡ false
      → (e : ClientError V F) × (answer_call x w (some c, m) ≡ (m, [], err e))
  unfolding answer_call
  answer_away (ok v) w c m h = rw h (_, refl)
  answer_away (err e) w c m h = rw h (_, refl)

  -- A response to a call that nobody waits for ends the task.
  response_away :
      (parse : V → Option SubscriptionId) (o : Output V) (w : World F S) (t : Task V F C P S)
      (id : ℕ) (c : C)
      → Dict.get t.manager.requests id ≡ some (Kind.pending_method_call c)
      → as_number (output_id o) ≡ some id
      → w.listening ≡ false
      → (t' : Task V F C P S) × (on_response parse o w t ≡ terminated t')
  unfolding on_response after_response process_response process_numbered process_status
      complete_pending_call complete_call_at
  response_away parse o w t id c at number away =
      let (e, h) =
        answer_away (output_value o) w c
          (record (t.manager) { requests = Dict.remove t.manager.requests id }) away in
      (
        record t {
          manager = record (t.manager) { requests = Dict.remove t.manager.requests id };
          delivered = t.delivered ++ [];
        },
        rw (number, at, at, h) refl,
      )

module _ {V R F C P : Type 0} (from_value : V → Result R F) (gone : F) (method : String)
    (params : Params V) (sink : C) where
  -- A request returns a value exactly when its message goes to the background task, its timer, if it
  -- has one, does not run out first, and what comes back is parsed to that value.
  pub request_iff :
      (full : Option F) (late : Bool) (out : Waited (Result V (ClientError V F)))
      (c : WsClient V C P) (r : R)
      → ((request from_value gone method params sink full late out c).0 ≡ ok r) ↔ (
          (full ≡ none)
          × ((c.request_timeout ≡ none) ⊎ (late ≡ false))
          × ((v : V) × (out ≡ received (ok v)) × (from_value v ≡ ok r)))
  unfolding request await_reply send_to_back wait reply_of parse_value answer_of
  request_iff (some f) late out c r = (λ h. cc, λ (a, b, d). cc)
  request_iff none late out c r =
      let (to, from) = reply_iff from_value gone (wait c.request_timeout late out) r in
      (
        λ h.
            let (v, e, k) = to h in
            let (a, q) = (wait_iff c.request_timeout late out (received (ok v))).0 e in
            (refl, a, (v, q, k)),
        λ (a, b, (v, q, k)).
            from (v, (wait_iff c.request_timeout late out (received (ok v))).1 (b, q), k),
      )

  -- When a request's timer runs out first, the id of the next request is not in use, and the WebSocket
  -- takes the request, the caller gets the error `WsRequestTimeout`, and the response to the request,
  -- which then finds no listener, terminates the background task.
  pub timed_out-terminates :
      (render : SubscriptionId → Option V) (parse : V → Option SubscriptionId)
      (out : Waited (Result V (ClientError V F))) (c : WsClient V C P) (duration : ℕ) {S : Type 0}
      (o : Output V) (w w' : World F S) (t : Task V F C P S)
      → c.request_timeout ≡ some duration
      → Dict.get t.manager.requests t.request_id ≡ none
      → w.failure ≡ none
      → as_number (output_id o) ≡ some t.request_id
      → w'.listening ≡ false
      → (request from_value gone method params sink none true out c ≡ (
        err ClientError.ws_request_timeout,
        record c { to_back = c.to_back ++ (FrontToBack.start_request method params sink ∷ []) },
      ))
        × ((t' : Task V F C P S) × (and_then
                (on_front render (some (FrontToBack.start_request method params sink)) w t)
                (on_response parse o w')
              ≡ terminated t'))
  unfolding request await_reply send_to_back wait reply_of
  timed_out-terminates render parse out c duration o w w' t timer fresh sends number away = (
    rw timer refl,
    (let at =
          get-insert t.manager.requests t.request_id t.request_id (Kind.pending_method_call sink)
          ∙ rw (beq_refl t.request_id) refl in
        rw (on_start_request render method params sink w t sends fresh) (
          response_away parse o w' (waiting_task method params sink t) t.request_id sink at number
            away)),
  )
