-- ===== src/WsClient/Processing/Responses.antt =====
-- What `process_response` (ws-client/src/client.rs) leaves of the manager's tables.
use jsonrpsee.Base.{
  ℕ, String, Option, none, some, Result, ok, err, ◌≡◌, refl, nat_eq, beq_refl, Option-cases,
  Bool-cases, inl, inr,
}
use jsonrpsee.Base.Dict
use jsonrpsee.Base.Dict.{Dict}
use jsonrpsee.Base.Dict.Laws.{get-insert}
use jsonrpsee.Types.Errors.{Error, ClientError}
use jsonrpsee.Types.Request.{as_number}
use jsonrpsee.Types.Response.{Output, SubscriptionId, output_id, output_value}
use jsonrpsee.WsClient.Manager.{
  RequestManager, RequestStatus, subscription_id_eq, insert_subscription, remove_subscription,
  complete_pending_call, complete_pending_subscription, request_status,
}
use jsonrpsee.WsClient.Manager.Links.{Linked, complete-Linked, insert_subscription-Linked}
use jsonrpsee.WsClient.Manager.Removal.{remove_subscription-Linked}
use jsonrpsee.WsClient.Processing.{
  Processed, World, refuse, answer_call, unsubscribe_with, announce, activate, activate_as,
  process_status, process_numbered, process_response,
}

module _ {C P S : Type 0} where
  -- After a successful `insert_subscription` the reverse lookup gives the request.
  pub insert_subscription-lookup :
      (id : ℕ) (sub_id : SubscriptionId) (s : S) (u : String) (m : RequestManager C P S) (x : Unit)
      → (insert_subscription id sub_id s u m).0 ≡ ok x
      → Dict.get ((insert_subscription id sub_id s u m).1).subscriptions sub_id ≡ some id
  unfolding insert_subscription
  insert_subscription-lookup id sub_id s u m x h = elim (Option-cases (Dict.get m.requests id)) [
    | inl e ↦ elim (Option-cases (Dict.get m.subscriptions sub_id)) [
      | inl f ↦ rw (e, f, get-insert m.subscriptions sub_id sub_id id, beq_refl sub_id) refl
      | inr (r, f) ↦ cc (rw (e, f) at h)
    ]
    | inr (v, e) ↦ cc (rw e at h)
  ]

module _ {V F C P S : Type 0} where
  -- The call did not panic, and the tables are linked.
  abbrev pub Kept : Option (Processed V F C P S) → Type 0
  Kept none = ⊥
  Kept (some (m, out, r)) = Linked m

module _ {V C P S : Type 0} where
  unsubscribe_with-Linked :
      (F : Type 0) (v : V) (r : Option (S × String) × RequestManager C P S)
      → Linked r.1
      → ((s : S) × (u : String) × (r.0 ≡ some (s, u)))
      → Kept (unsubscribe_with {F = F} v r)
  unfolding unsubscribe_with
  unsubscribe_with-Linked F v (none, m) l (s, u, e) = cc
  unsubscribe_with-Linked F v (some (s, u), m) l e = l

module _ {V F C P S : Type 0} where
  refuse-Linked :
      (p : P) (e : ClientError V F) (w : World F S) (m : RequestManager C P S)
      → Linked m
      → Kept (some (refuse p e w m))
  unfolding refuse
  refuse-Linked p e w m l = elim (Bool-cases w.listening) [ inl q ↦ rw q l | inr q ↦ rw q l ]

  answer_call-Linked :
      (r : Result V (Error V)) (w : World F S) (c : Option C × RequestManager C P S)
      → Linked c.1
      → Kept (some (answer_call r w c))
  unfolding answer_call
  answer_call-Linked r w (none, m) l = l
  answer_call-Linked (ok v) w (some c, m) l = elim (Bool-cases w.listening) [
    | inl q ↦ rw q l
    | inr q ↦ rw q l
  ]
  answer_call-Linked (err e) w (some c, m) l = elim (Bool-cases w.listening) [
    | inl q ↦ rw q l
    | inr q ↦ rw q l
  ]

  announce-Linked :
      (id : ℕ) (sub_id : SubscriptionId) (v : V) (p : P) (w : World F S)
      (r : Result {0, 0} Unit S × RequestManager C P S)
      → Linked r.1
      → ((x : Unit) → r.0 ≡ ok x → Dict.get (r.1).subscriptions sub_id ≡ some id)
      → Kept (announce id sub_id v p w r)
  unfolding announce
  announce-Linked id sub_id v p w (err s, m) l f =
      refuse-Linked p ClientError.invalid_subscription_id w m l
  announce-Linked id sub_id v p w (ok x, m) l f = elim (Bool-cases w.listening) [
    | inl q ↦ rw q l
    | inr q ↦
        let k = remove_subscription-Linked id sub_id m l (f x refl) in
        rw q (unsubscribe_with-Linked F v (remove_subscription id sub_id m) k.0 k.1)
  ]

  activate_as-Linked :
      (id : ℕ) (v : V) (w : World F S) (p : P) (u : String) (m : RequestManager C P S)
      (o : Option SubscriptionId)
      → Linked m
      → Kept (activate_as id v w p u m o)
  unfolding activate_as
  activate_as-Linked id v w p u m none l = refuse-Linked p ClientError.invalid_subscription_id w m l
  activate_as-Linked id v w p u m (some sub_id) l =
      announce-Linked id sub_id v p w (insert_subscription id sub_id w.channel u m)
        (insert_subscription-Linked id sub_id w.channel u m l)
        (λ x h. insert_subscription-lookup id sub_id w.channel u m x h)

  activate-Linked :
      (parse : V → Option SubscriptionId) (id : ℕ) (r : Result V (Error V)) (w : World F S)
      (c : Option (P × String) × RequestManager C P S)
      → Linked c.1
      → Kept (activate parse id r w c)
  unfolding activate
  activate-Linked parse id r w (none, m) l = l
  activate-Linked parse id (err e) w (some (p, u), m) l =
      refuse-Linked p (ClientError.request e) w m l
  activate-Linked parse id (ok v) w (some (p, u), m) l = activate_as-Linked id v w p u m (parse v) l

  process_status-Linked :
      (parse : V → Option SubscriptionId) (id : ℕ) (r : Result V (Error V)) (w : World F S)
      (m : RequestManager C P S) (s : RequestStatus)
      → Linked m
      → Kept (process_status parse id r w m s)
  unfolding process_status
  process_status-Linked parse id r w m RequestStatus.pending_method_call l =
      answer_call-Linked r w (complete_pending_call id m) (complete-Linked id m l).0
  process_status-Linked parse id r w m RequestStatus.pending_subscription l =
      activate-Linked parse id r w (complete_pending_subscription id m) (complete-Linked id m l).1
  process_status-Linked parse id r w m RequestStatus.subscription l = l
  process_status-Linked parse id r w m RequestStatus.invalid l = l

  process_numbered-Linked :
      (parse : V → Option SubscriptionId) (id : Option ℕ) (r : Result V (Error V)) (w : World F S)
      (m : RequestManager C P S)
      → Linked m
      → Kept (process_numbered parse id r w m)
  unfolding process_numbered
  process_numbered-Linked parse none r w m l = l
  process_numbered-Linked parse (some id) r w m l =
      process_status-Linked parse id r w m (request_status id m) l

  -- On linked tables `process_response` does not panic, and it leaves linked tables.
  pub process_response-Linked :
      (parse : V → Option SubscriptionId) (o : Output V) (w : World F S) (m : RequestManager C P S)
      → Linked m
      → Kept (process_response parse o w m)
  unfolding process_response
  process_response-Linked parse o w m l =
      process_numbered-Linked parse (as_number (output_id o)) (output_value o) w m l
