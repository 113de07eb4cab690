-- ===== src/WsClient/Client/Rounds.antt =====
-- Every turn of the client's background task (ws-client/src/client.rs) keeps the manager's tables
-- linked, and none of them panics.
use jsonrpsee.Base.{
  ℕ, ◌+◌, String, List, [], ◌∷◌, Option, none, some, Result, ok, err, ◌≡◌, refl, arith, Bool-cases,
  inl, inr,
}
use jsonrpsee.Types.Params.{Params, array}
use jsonrpsee.Types.Request.{Request}
use jsonrpsee.Types.Response.{Output, Response, SubscriptionId, SubscriptionNotif}
use jsonrpsee.WsClient.Manager.{
  RequestManager, subscription_id_eq, insert_pending_call, insert_pending_subscription,
  remove_subscription, get_request_id_by_subscription_id, as_subscription_mut,
}
use jsonrpsee.WsClient.Manager.Links.{
  Linked, insert_pending_call-Linked, insert_pending_subscription-Linked,
}
use jsonrpsee.WsClient.Manager.Removal.{remove_subscription-Linked}
use jsonrpsee.WsClient.Client.{
  Task, Flow, running, terminated, panicked, FrontToBack, and_then, transmit, start_impl,
  send_notification, deliver, call_inserted, on_call_started, subscription_inserted,
  on_subscription_started, unsubscribe, on_removed, close_found, on_subscription_closed, on_front,
  after_response, on_response, on_responses, on_dropped, notify, notify_found, on_notif, on_back,
}
use jsonrpsee.WsClient.Processing.{Processed, World, Delivery, process_response}
use jsonrpsee.WsClient.Processing.Responses.{Kept, process_response-Linked}

module _ {V F C P S : Type 0} where
  pub transmit-manager :
      (rq : Request V) (w : World F S) (t : Task V F C P S) → (transmit rq w t).manager ≡ t.manager
  unfolding transmit
  transmit-manager rq w t = ground arith

  pub start_impl-manager :
      (method : String) (params : Params V) (w : World F S) (t : Task V F C P S)
      → (start_impl method params w t).1.manager ≡ t.manager
  unfolding start_impl
  start_impl-manager method params w t = transmit-manager _ w _

  pub deliver-manager :
      (d : Delivery V F C P S) (w : World F S) (t : Task V F C P S)
      → (deliver d w t).manager ≡ t.manager
  unfolding deliver
  deliver-manager d w t = ground arith

  call_inserted-Linked :
      (w : World F S) (t : Task V F C P S) (r : Result {0, 0} Unit C × RequestManager C P S)
      → Linked r.1
      → Linked (call_inserted w t r).manager
  unfolding call_inserted
  call_inserted-Linked w t (ok x, m) l = l
  call_inserted-Linked w t (err c, m) l = rw (deliver-manager _ w (record t { manager = m })) l

  on_call_started-Linked :
      (c : C) (w : World F S) (r : Result ℕ F × Task V F C P S)
      → Linked (r.1).manager
      → Linked (on_call_started c w r).manager
  unfolding on_call_started
  on_call_started-Linked c w (err f, t) l = rw (deliver-manager _ w t) l
  on_call_started-Linked c w (ok id, t) l =
      call_inserted-Linked w t (insert_pending_call id c t.manager)
        (insert_pending_call-Linked id c t.manager l)

  subscription_inserted-Linked :
      (w : World F S) (t : Task V F C P S) (r : Result {0, 0} Unit P × RequestManager C P S)
      → Linked r.1
      → Linked (subscription_inserted w t r).manager
  unfolding subscription_inserted
  subscription_inserted-Linked w t (ok x, m) l = l
  subscription_inserted-Linked w t (err p, m) l =
      rw (deliver-manager _ w (record t { manager = m })) l

  on_subscription_started-Linked :
      (p : P) (u : String) (w : World F S) (r : Result ℕ F × Task V F C P S)
      → Linked (r.1).manager
      → Linked (on_subscription_started p u w r).manager
  unfolding on_subscription_started
  on_subscription_started-Linked p u w (err f, t) l = rw (deliver-manager _ w t) l
  on_subscription_started-Linked p u w (ok id, t) l =
      subscription_inserted-Linked w t (insert_pending_subscription id p u t.manager)
        (insert_pending_subscription-Linked id p u t.manager l)

  unsubscribe-manager :
      (method : String) (w : World F S) (t : Task V F C P S) (o : Option V)
      → (unsubscribe method w t o).manager ≡ t.manager
  unfolding unsubscribe
  unsubscribe-manager method w t none = refl
  unsubscribe-manager method w t (some v) = start_impl-manager method (array (v ∷ [])) w t

  on_removed-Linked :
      (render : SubscriptionId → Option V) (s : SubscriptionId) (w : World F S) (t : Task V F C P S)
      (r : Option (S × String) × RequestManager C P S)
      → Linked r.1
      → Linked (on_removed render s w t r).manager
  unfolding on_removed
  on_removed-Linked render s w t (none, m) l = l
  on_removed-Linked render s w t (some (sink, u), m) l =
      rw (unsubscribe-manager u w (record t { manager = m }) (render s)) l

  close_found-Linked :
      (render : SubscriptionId → Option V) (s : SubscriptionId) (w : World F S) (t : Task V F C P S)
      (o : Option ℕ)
      → get_request_id_by_subscription_id s t.manager ≡ o
      → Linked t.manager
      → Linked (close_found render s w t o).manager
  unfolding close_found
  close_found-Linked render s w t none e l = l
  close_found-Linked render s w t (some id) e l =
      on_removed-Linked render s w t (remove_subscription id s t.manager)
        (remove_subscription-Linked id s t.manager l e).0

  -- The task has not panicked, and the tables are linked.
  abbrev pub FlowLinked : Flow (Task V F C P S) → Type 0
  FlowLinked (running t) = Linked t.manager
  FlowLinked (terminated t) = Linked t.manager
  FlowLinked panicked = ⊥

  -- On linked tables the handler of a message of the front end leaves linked tables, and does not panic.
  pub on_front-Linked :
      (render : SubscriptionId → Option V) (msg : Option (FrontToBack V C P)) (w : World F S)
      (t : Task V F C P S)
      → Linked t.manager
      → FlowLinked (on_front render msg w t)
  unfolding on_front send_notification on_subscription_closed
  on_front-Linked render none w t l = l
  on_front-Linked render (some (FrontToBack.notification method params)) w t l =
      rw (transmit-manager _ w t) l
  on_front-Linked render (some (FrontToBack.start_request method params c)) w t l =
      on_call_started-Linked c w (start_impl method params w t)
        (rw (start_impl-manager method params w t) l)
  on_front-Linked render (some (FrontToBack.subscribe method params u p)) w t l =
      on_subscription_started-Linked p u w (start_impl method params w t)
        (rw (start_impl-manager method params w t) l)
  on_front-Linked render (some (FrontToBack.subscription_closed s)) w t l =
      close_found-Linked render s w t (get_request_id_by_subscription_id s t.manager) refl l

  after_response-Linked :
      (w : World F S) (t : Task V F C P S) (o : Option (Processed V F C P S))
      → Kept o
      → FlowLinked (after_response w t o)
  unfolding after_response
  after_response-Linked w t none l = elim l [ ]
  after_response-Linked w t (some (m, out, ok none)) l = l
  after_response-Linked w t (some (m, out, ok (some (u, params)))) l =
      rw (start_impl-manager u params w _) l
  after_response-Linked w t (some (m, out, err e)) l = l

  and_then-Linked :
      (f : Flow (Task V F C P S)) (g : Task V F C P S → Flow (Task V F C P S))
      → FlowLinked f
      → ((t : Task V F C P S) → Linked t.manager → FlowLinked (g t))
      → FlowLinked (and_then f g)
  and_then-Linked (running t) g l h = h t l
  and_then-Linked (terminated t) g l h = l
  and_then-Linked panicked g l h = l

  on_response-Linked :
      (parse : V → Option SubscriptionId) (o : Output V) (w : World F S) (t : Task V F C P S)
      → Linked t.manager
      → FlowLinked (on_response parse o w t)
  unfolding on_response
  on_response-Linked parse o w t l =
      after_response-Linked w t (process_response parse o w t.manager)
        (process_response-Linked parse o w t.manager l)

  on_responses-Linked :
      (parse : V → Option SubscriptionId) (os : List (Output V)) (ws : ℕ → World F S)
      (t : Task V F C P S)
      → Linked t.manager
      → FlowLinked (on_responses parse os ws t)
  unfolding on_responses
  on_responses-Linked parse [] ws t l = l
  on_responses-Linked parse (o ∷ os) ws t l =
      and_then-Linked (on_response parse o (ws 0) t)
        (λ t'. on_responses parse os (λ k. ws (k + 1)) t') (on_response-Linked parse o (ws 0) t l)
        (λ t' l'. on_responses-Linked parse os (λ k. ws (k + 1)) t' l')

  on_dropped-Linked :
      (t : Task V F C P S) (r : Option (S × String) × RequestManager C P S)
      → Linked r.1
      → ((s : S) × (u : String) × (r.0 ≡ some (s, u)))
      → FlowLinked (on_dropped t r)
  unfolding on_dropped
  on_dropped-Linked t (none, m) l (s, u, e) = cc
  on_dropped-Linked t (some x, m) l e = l

  notify-Linked :
      (n : SubscriptionNotif V) (w : World F S) (t : Task V F C P S) (id : ℕ) (o : Option S)
      → get_request_id_by_subscription_id n.params.subscription t.manager ≡ some id
      → Linked t.manager
      → FlowLinked (notify n w t id o)
  unfolding notify
  notify-Linked n w t id none e l = l
  notify-Linked n w t id (some sink) e l =
      let k = remove_subscription-Linked id n.params.subscription t.manager l e in
      elim (Bool-cases w.accepts) [
        | inl q ↦ rw q l
        | inr q ↦
            rw q
              (on_dropped-Linked t (remove_subscription id n.params.subscription t.manager) k.0 k.1)
      ]

  notify_found-Linked :
      (n : SubscriptionNotif V) (w : World F S) (t : Task V F C P S) (o : Option ℕ)
      → get_request_id_by_subscription_id n.params.subscription t.manager ≡ o
      → Linked t.manager
      → FlowLinked (notify_found n w t o)
  unfolding notify_found
  notify_found-Linked n w t none e l = l
  notify_found-Linked n w t (some id) e l =
      notify-Linked n w t id (as_subscription_mut id t.manager) e l

  -- On linked tables the handler of what the server sends leaves linked tables, and does not panic.
  pub on_back-Linked :
      (parse : V → Option SubscriptionId) (msg : Option (Result (Response V) F))
      (ws : ℕ → World F S) (t : Task V F C P S)
      → Linked t.manager
      → FlowLinked (on_back parse msg ws t)
  unfolding on_back on_notif
  on_back-Linked parse none ws t l = l
  on_back-Linked parse (some (err e)) ws t l = l
  on_back-Linked parse (some (ok (Response.single o))) ws t l =
      on_response-Linked parse o (ws 0) t l
  on_back-Linked parse (some (ok (Response.batch os))) ws t l = on_responses-Linked parse os ws t l
  on_back-Linked parse (some (ok (Response.notif n))) ws t l =
      notify_found-Linked n (ws 0) t
        (get_request_id_by_subscription_id n.params.subscription t.manager) refl l
