-- ===== src/WsClient/Processing/Once.antt =====
-- A response to the client (`process_response` of ws-client/src/client.rs) settles its own request and
-- no other, once.
use jsonrpsee.Base.{
  ℕ, String, [], Option, none, some, Bool, true, false, Result, ok, err, ◌≡◌, ◌≢◌, refl, nat_eq,
  beq_refl, beq_ne, arith, Option-cases, Bool-cases, inl, inr,
}
use jsonrpsee.Base.Dict
use jsonrpsee.Base.Dict.{Dict}
use jsonrpsee.Base.Dict.Laws.{get-insert, get-remove}
use jsonrpsee.Types.Errors.{Error, ClientError}
use jsonrpsee.Types.Request.{as_number}
use jsonrpsee.Types.Response.{Output, SubscriptionId, output_id, output_value}
use jsonrpsee.WsClient.Manager.{
  RequestManager, Kind, subscription_id_eq, insert_subscription, remove_subscription,
  complete_pending_call, complete_pending_subscription, complete_call_at, complete_subscription_at,
  remove_subscription_at, status_of,
}
use jsonrpsee.WsClient.Processing.{
  Processed, World, refuse, answer_call, unsubscribe_with, announce, activate, activate_as,
  process_status, process_numbered, process_response,
}

module _ {C P S : Type 0} where
  abbrev pub is_pending : Option (Kind C P S) → Bool
  is_pending none = false
  is_pending (some (Kind.pending_method_call c)) = true
  is_pending (some (Kind.pending_subscription p u)) = true
  is_pending (some (Kind.subscription s u)) = false

  -- Request `id` is no longer pending in `m'`, and every other request is as in `m`.
  abbrev pub Settled : ℕ → RequestManager C P S → RequestManager C P S → Type 0
  Settled id m m' =
      (is_pending (Dict.get m'.requests id) ≡ false)
      × ((j : ℕ) → id ≢ j → Dict.get m'.requests j ≡ Dict.get m.requests j)

  removed-Settled :
      (id : ℕ) (m : RequestManager C P S)
      → Settled id m (record m { requests = Dict.remove m.requests id })
  removed-Settled id m = (
    rw (get-remove m.requests id id, beq_refl id) refl,
    λ j ne. rw (get-remove m.requests id j, beq_ne id j ne) refl,
  )

  insert_subscription-Settled :
      (id : ℕ) (sub_id : SubscriptionId) (s : S) (u : String) (m m' : RequestManager C P S)
      → Settled id m m'
      → Settled id m (insert_subscription id sub_id s u m').1
  unfolding insert_subscription
  insert_subscription-Settled id sub_id s u m m' h = elim (Option-cases (Dict.get m'.requests id)) [
    | inl e ↦ elim (Option-cases (Dict.get m'.subscriptions sub_id)) [
      | inl f ↦
          rw (e, f)
            (
              rw (get-insert m'.requests id id (Kind.subscription s u), beq_refl id) refl,
              λ j ne.
                  rw (get-insert m'.requests id j (Kind.subscription s u), beq_ne id j ne)
                    (h.1 j ne),
            )
      | inr (r, f) ↦ rw (e, f) h
    ]
    | inr (v, e) ↦ rw e h
  ]

  remove_subscription_at-Settled :
      (id : ℕ) (sub_id : SubscriptionId) (o : Option (Kind C P S)) (m m' : RequestManager C P S)
      → Settled id m m'
      → Settled id m (remove_subscription_at id sub_id o m').1
  unfolding remove_subscription_at
  remove_subscription_at-Settled id sub_id none m m' h = h
  remove_subscription_at-Settled id sub_id (some (Kind.pending_method_call c)) m m' h = h
  remove_subscription_at-Settled id sub_id (some (Kind.pending_subscription p u)) m m' h = h
  remove_subscription_at-Settled id sub_id (some (Kind.subscription s u)) m m' h =
      elim (Option-cases (Dict.get m'.subscriptions sub_id)) [
        | inl f ↦ rw f h
        | inr (r, f) ↦ rw f (
          rw (get-remove m'.requests id id, beq_refl id) refl,
          λ j ne. rw (get-remove m'.requests id j, beq_ne id j ne) (h.1 j ne),
        )
      ]

  remove_subscription-Settled :
      (id : ℕ) (sub_id : SubscriptionId) (m m' : RequestManager C P S)
      → Settled id m m'
      → Settled id m (remove_subscription id sub_id m').1
  unfolding remove_subscription
  remove_subscription-Settled id sub_id m m' h =
      remove_subscription_at-Settled id sub_id (Dict.get m'.requests id) m m' h

module _ {V F C P S : Type 0} where
  -- What the outcome of `process_response` has to be for request `id`
  abbrev pub Settles : ℕ → RequestManager C P S → Option (Processed V F C P S) → Type 0
  Settles id m none = Unit
  Settles id m (some (m', out, r)) = Settled id m m'

  refuse-manager :
      (p : P) (e : ClientError V F) (w : World F S) (m : RequestManager C P S)
      → (refuse p e w m).0 ≡ m
  unfolding refuse
  refuse-manager p e w m = ground arith

  answer_call-manager :
      (r : Result V (Error V)) (w : World F S) (c : Option C × RequestManager C P S)
      → (answer_call r w c).0 ≡ c.1
  unfolding answer_call
  answer_call-manager r w (none, m) = refl
  answer_call-manager (ok v) w (some c, m) = ground arith
  answer_call-manager (err e) w (some c, m) = ground arith

module _ {V C P S : Type 0} where
  unsubscribe_with-Settles :
      (F : Type 0) (id : ℕ) (v : V) (m : RequestManager C P S)
      (r : Option (S × String) × RequestManager C P S)
      → Settled id m r.1
      → Settles id m (unsubscribe_with {F = F} v r)
  unfolding unsubscribe_with
  unsubscribe_with-Settles F id v m (none, m') h = tt
  unsubscribe_with-Settles F id v m (some (s, u), m') h = h

module _ {V F C P S : Type 0} where
  announce-Settles :
      (id : ℕ) (sub_id : SubscriptionId) (v : V) (p : P) (w : World F S) (m : RequestManager C P S)
      (r : Result {0, 0} Unit S × RequestManager C P S)
      → Settled id m r.1
      → Settles id m (announce id sub_id v p w r)
  unfolding announce
  announce-Settles id sub_id v p w m (err s, m') h =
      rw (refuse-manager p ClientError.invalid_subscription_id w m') h
  announce-Settles id sub_id v p w m (ok x, m') h = elim (Bool-cases w.listening) [
    | inl q ↦ rw q h
    | inr q ↦ rw q (
        unsubscribe_with-Settles F id v m (remove_subscription id sub_id m')
          (remove_subscription-Settled id sub_id m m' h))
  ]

  activate_as-Settles :
      (id : ℕ) (v : V) (w : World F S) (p : P) (u : String) (m m' : RequestManager C P S)
      (o : Option SubscriptionId)
      → Settled id m m'
      → Settles id m (activate_as id v w p u m' o)
  unfolding activate_as
  activate_as-Settles id v w p u m m' none h =
      rw (refuse-manager p ClientError.invalid_subscription_id w m') h
  activate_as-Settles id v w p u m m' (some sub_id) h =
      announce-Settles id sub_id v p w m (insert_subscription id sub_id w.channel u m')
        (insert_subscription-Settled id sub_id w.channel u m m' h)

  activate-Settles :
      (parse : V → Option SubscriptionId) (id : ℕ) (r : Result V (Error V)) (w : World F S) (p : P)
      (u : String) (m m' : RequestManager C P S)
      → Settled id m m'
      → Settles id m (activate parse id r w (some (p, u), m'))
  unfolding activate
  activate-Settles parse id (err e) w p u m m' h =
      rw (refuse-manager p (ClientError.request e) w m') h
  activate-Settles parse id (ok v) w p u m m' h = activate_as-Settles id v w p u m m' (parse v) h

  process_status-Settles :
      (parse : V → Option SubscriptionId) (id : ℕ) (r : Result V (Error V)) (w : World F S)
      (m : RequestManager C P S) (o : Option (Kind C P S))
      → Dict.get m.requests id ≡ o
      → Settles id m (process_status parse id r w m (status_of o))
  unfolding process_status complete_pending_call complete_pending_subscription complete_call_at
      complete_subscription_at
  process_status-Settles parse id r w m none e = (rw e refl, λ j ne. refl)
  process_status-Settles parse id r w m (some (Kind.subscription s u)) e = (rw e refl, λ j ne. refl)
  process_status-Settles parse id r w m (some (Kind.pending_method_call c)) e =
      rw (answer_call-manager r w (complete_pending_call id m), e) (removed-Settled id m)
  process_status-Settles parse id r w m (some (Kind.pending_subscription p u)) e = rw e (
      activate-Settles parse id r w p u m (record m { requests = Dict.remove m.requests id })
        (removed-Settled id m))

  process_numbered-Settles :
      (parse : V → Option SubscriptionId) (o : Option ℕ) (id : ℕ) (r : Result V (Error V))
      (w : World F S) (m : RequestManager C P S)
      → o ≡ some id
      → Settles id m (process_numbered parse o r w m)
  unfolding process_numbered
  process_numbered-Settles parse none id r w m e = cc
  process_numbered-Settles parse (some i) id r w m e =
      let same : i ≡ id = cc in
      rw same (process_status-Settles parse id r w m (Dict.get m.requests id) refl)

  -- A response with the id of a request leaves that request settled and every other request as it was.
  pub process_response-Settles :
      (parse : V → Option SubscriptionId) (o : Output V) (w : World F S) (m : RequestManager C P S)
      (id : ℕ)
      → as_number (output_id o) ≡ some id
      → Settles id m (process_response parse o w m)
  unfolding process_response
  process_response-Settles parse o w m id h =
      process_numbered-Settles parse (as_number (output_id o)) id (output_value o) w m h

  settled_status :
      (parse : V → Option SubscriptionId) (id : ℕ) (r : Result V (Error V)) (w : World F S)
      (m : RequestManager C P S) (o : Option (Kind C P S))
      → is_pending o ≡ false
      → process_status parse id r w m (status_of o)
        ≡ some (m, [], err ClientError.invalid_request_id)
  unfolding process_status
  settled_status parse id r w m none h = refl
  settled_status parse id r w m (some (Kind.subscription s u)) h = refl
  settled_status parse id r w m (some (Kind.pending_method_call c)) h = cc
  settled_status parse id r w m (some (Kind.pending_subscription p u)) h = cc

  -- A response whose id is that of no pending request is an error, and changes nothing.
  pub process_response-unknown :
      (parse : V → Option SubscriptionId) (o : Output V) (w : World F S) (m : RequestManager C P S)
      (id : ℕ)
      → as_number (output_id o) ≡ some id
      → is_pending (Dict.get m.requests id) ≡ false
      → process_response parse o w m ≡ some (m, [], err ClientError.invalid_request_id)
  unfolding process_response process_numbered
  process_response-unknown parse o w m id h settled =
      rw h (settled_status parse id (output_value o) w m (Dict.get m.requests id) settled)

  -- After a response with the id of a request, another one with that id is an error, and changes
  -- nothing.
  pub process_response-twice :
      (parse : V → Option SubscriptionId) (o o' : Output V) (w w' : World F S)
      (m : RequestManager C P S) (p : Processed V F C P S) (id : ℕ)
      → as_number (output_id o) ≡ some id
      → as_number (output_id o') ≡ some id
      → process_response parse o w m ≡ some p
      → process_response parse o' w' p.0 ≡ some (p.0, [], err ClientError.invalid_request_id)
  process_response-twice parse o o' w w' m p id h h' done =
      process_response-unknown parse o' w' p.0 id h'
        (rw done at (process_response-Settles parse o w m id h)).0
