-- ===== src/Http/Server/Handles.antt =====
-- The `unwrap` on the request that a handler answers, in the background task of
-- http-server/src/server.rs.
use jsonrpsee.Base.{
  ℕ, Option, none, some, Bool, true, false, Result, ◌≡◌, ◌≢◌, ◌⊎◌, refl, sym, Option-cases, subst,
  inl, inr, arith, nat_eq, string_eq, length,
}
use jsonrpsee.Base.Dict
use jsonrpsee.Types.Errors.{Error}
use jsonrpsee.Types.Request.{Request, MethodCall, Notification}
use jsonrpsee.Batches
use jsonrpsee.Batches.{BatchesState, BatchesEvent, BatchesElem, BatchesElemId, elem_id, Polled}
use jsonrpsee.Batches.Persistence.{Pending, next_event-Pending}
use jsonrpsee.Batches.Freshness.{next_event-fresh}
use jsonrpsee.Batches.Answers.{
  Pending-found, found-Pending, inject-Pending, set_response-Pending, set_response-Unique,
}
use jsonrpsee.Batches.Keys.{keys-Lists}
use jsonrpsee.Batches.Sizes.{Shrinks, next_event-Shrinks, Distinct-keys, inject-size}
use jsonrpsee.Http.Transport.{TransportServerEvent}
use jsonrpsee.Http.RawServer
use jsonrpsee.Http.RawServer.{
  RawServer, RawServerEvent, Turn, returned, again, pull, batch_turn, raw_turn,
}
use jsonrpsee.Http.RawServer.Turns.{
  Made, batch_turn-Made, raw_turn-inject, respond-set_response, own_id,
}
use jsonrpsee.Http.Server.{
  FrontToBack, Task, with_server, respond, answer_found, on_front, on_event, on_notification,
  on_call, on_request,
}
use jsonrpsee.Http.Server.Dispatch.{Refused, respond-Refused}

-- The two ids differ.
abbrev pub Apart : BatchesElemId → BatchesElemId → Type 0
Apart i id = (i.outer ≢ id.outer) ⊎ (i.inner ≢ id.inner)

-- The message is no answer to that request.
abbrev pub Spares : {Value Handler : Type 0} → BatchesElemId → FrontToBack Value Handler → Type 0
Spares id (FrontToBack.answer_request i r) = Apart i id
Spares id (FrontToBack.register_notifications name h l) = Unit
Spares id (FrontToBack.register_method name h) = Unit

Apart-sym : (i id : BatchesElemId) → Apart i id → Apart id i
Apart-sym i id (inl h) = inl (λ e. h (sym e))
Apart-sym i id (inr h) = inr (λ e. h (sym e))

module _ {Value Handler SendBack : Type 0} where
  -- What the background task may do without answering that request for its handler: a round of the raw
  -- server that goes on, one that returns an event, which is dispatched, a request that arrives, and a
  -- message of the front end that spares the request.
  pub data Step (id : BatchesElemId) (t : Task Value Handler SendBack)
      : Task Value Handler SendBack → Type 0 where
    round :
        (s : RawServer Value SendBack)
        → (batch_turn (Dict.keys t.server.batches.batches) t.server ≡ again s)
          ⊎ (batch_turn (Dict.keys t.server.batches.batches) t.server ≡ pull s)
        → Step id t (record t { server = s })
    dispatch :
        (takes : Bool) (ev : RawServerEvent Value) (s : RawServer Value SendBack)
        (t' : Task Value Handler SendBack)
        → batch_turn (Dict.keys t.server.batches.batches) t.server ≡ returned ev s
        → on_event takes ev (record t { server = s }) ≡ some t'
        → Step id t t'
    arrive :
        (n : ℕ) (rq : Request Value) (s : RawServer Value SendBack)
        → raw_turn (TransportServerEvent.request n rq) t.server ≡ again s
        → Step id t (record t { server = s })
    message :
        (m : FrontToBack Value Handler) (t' : Task Value Handler SendBack)
        → Spares id m
        → on_front m t ≡ some t'
        → Step id t t'

  pub data Run (id : BatchesElemId) (t : Task Value Handler SendBack)
      : Task Value Handler SendBack → Type 0 where
    start : Run id t t
    then_step : {u v : Task Value Handler SendBack} → Run id t u → Step id u v → Run id t v

-- No batch has two entries, and the call of the id waits.
pub record Holds {Value : Type 0} (id : BatchesElemId) (b : BatchesState Value (Option ℕ))
    : Type 0 where
  pub unique : Dict.Unique b.batches
  pub waits : Pending id b

module _ {Value : Type 0} where
  polled-Holds :
      (id : BatchesElemId) (b b' : BatchesState Value (Option ℕ))
      (o : Option (BatchesEvent Value (Option ℕ)))
      → Batches.next_event (Dict.keys b.batches) b ≡ some (o, b')
      → Holds id b
      → Holds id b'
  polled-Holds id b b' o e h = record {
    unique =
        (subst (Shrinks (length b.batches)) e
          (next_event-Shrinks (Dict.keys b.batches) b h.unique)).1;
    waits =
        next_event-Pending id (Dict.keys b.batches) b b' o (keys-Lists b)
          (Distinct-keys b.batches h.unique) e h.waits;
  }

  answered-Holds :
      (id other : BatchesElemId) (r : Result Value (Error Value))
      (b b' : BatchesState Value (Option ℕ)) (x : BatchesElem Value (Option ℕ))
      → Batches.request_by_id id b ≡ some x
      → Batches.set_response id r b ≡ some b'
      → Apart id other
      → Holds other b
      → Holds other b'
  answered-Holds id other r b b' x f e a h = record {
    unique = set_response-Unique id r b b' h.unique e;
    waits = set_response-Pending id other r b b' x f e a h.waits;
  }

module _ {Value Handler SendBack : Type 0} where
  with_server-some :
      (o : Option (RawServer Value SendBack)) (t t' : Task Value Handler SendBack)
      → with_server o t ≡ some t'
      → o ≡ some t'.server
  unfolding with_server
  with_server-some none t t' h = cc
  with_server-some (some s) t t' h = ground (arith, h)

  respond-Holds :
      (id other : BatchesElemId) (r : Result Value (Error Value))
      (t t' : Task Value Handler SendBack) (x : BatchesElem Value (Option ℕ))
      → Batches.request_by_id id t.server.batches ≡ some x
      → respond id r t ≡ some t'
      → Apart id other
      → Holds other t.server.batches
      → Holds other t'.server.batches
  unfolding respond
  respond-Holds id other r t t' x f e a h =
      answered-Holds id other r t.server.batches t'.server.batches x f
        (respond-set_response id r t.server t'.server
          (with_server-some (RawServer.respond id r t.server) t t' e))
        a h

  call-Holds :
      (id : BatchesElemId) (takes : Bool) (y : BatchesElem Value (Option ℕ)) (c : MethodCall Value)
      (o : Option Handler) (t t' : Task Value Handler SendBack)
      → Batches.request_by_id (elem_id y) t.server.batches ≡ some y
      → on_call takes y c o t ≡ some t'
      → Apart (elem_id y) id
      → Holds id t.server.batches
      → Holds id t'.server.batches
  unfolding on_call
  call-Holds id takes y c none t t' f e a h = respond-Holds (elem_id y) id _ t t' y f e a h
  call-Holds id true y c (some k) t t' f e a h =
      let same : t.server.batches ≡ t'.server.batches = ground (arith, e) in subst (Holds id) same h
  call-Holds id false y c (some k) t t' f e a h = respond-Holds (elem_id y) id _ t t' y f e a h

  request-Holds :
      (id : BatchesElemId) (takes : Bool) (y : BatchesElem Value (Option ℕ))
      (o : Option (MethodCall Value)) (t t' : Task Value Handler SendBack)
      → Batches.request_by_id (elem_id y) t.server.batches ≡ some y
      → on_request takes y o t ≡ some t'
      → Apart (elem_id y) id
      → Holds id t.server.batches
      → Holds id t'.server.batches
  unfolding on_request
  request-Holds id takes y none t t' f e a h = cc
  request-Holds id takes y (some c) t t' f e a h =
      call-Holds id takes y c (Dict.get t.registered_methods c.method) t t' f e a h

  notified-server :
      (takes : Bool) (n : Notification Value) (o : Option (Handler × Bool))
      (t : Task Value Handler SendBack)
      → (on_notification takes n o t).server ≡ t.server
  unfolding on_notification
  notified-server takes n none t = refl
  notified-server true n (some (k, l)) t = refl
  notified-server false n (some (k, l)) t = refl

  -- An event that a round returns is dispatched.
  dispatched-Holds :
      (id : BatchesElemId) (takes : Bool) (ev : RawServerEvent Value) (s : RawServer Value SendBack)
      (t t' : Task Value Handler SendBack)
      → batch_turn (Dict.keys t.server.batches.batches) t.server ≡ returned ev s
      → on_event takes ev (record t { server = s }) ≡ some t'
      → Holds id t.server.batches
      → Holds id t'.server.batches
  unfolding on_event
  dispatched-Holds id takes (RawServerEvent.notification n) s t t' b e h =
      let (o, p) =
        subst (Made (Batches.next_event (Dict.keys t.server.batches.batches) t.server.batches)) b
          (batch_turn-Made (Dict.keys t.server.batches.batches) t.server) in
      let u =
        on_notification takes n (Dict.get t.registered_notifications n.method)
          (record t { server = s }) in
      let same : u ≡ t' = cc (e) in
      subst (λ (v : Task Value Handler SendBack). Holds id v.server.batches) same
        (rw
          (notified-server takes n (Dict.get t.registered_notifications n.method)
            (record t { server = s }))
          (polled-Holds id t.server.batches s.batches o p h))
  dispatched-Holds id takes (RawServerEvent.request y) s t t' b e h =
      let (x, p, f, own) =
        subst (Made (Batches.next_event (Dict.keys t.server.batches.batches) t.server.batches)) b
          (batch_turn-Made (Dict.keys t.server.batches.batches) t.server) in
      let fresh =
        next_event-fresh id (Dict.keys t.server.batches.batches) t.server.batches s.batches x
          (keys-Lists t.server.batches) (Distinct-keys t.server.batches.batches h.unique) p
          h.waits in
      request-Holds id takes y y.inner.elem (record t { server = s }) t'
        (subst (λ i. Batches.request_by_id i s.batches ≡ some y) (sym own) f) e
        (Apart-sym id (elem_id y) (subst (λ i. Apart id i) (sym own) fresh))
        (polled-Holds id t.server.batches s.batches (some (BatchesEvent.request x)) p h)

  message-Holds :
      (id : BatchesElemId) (m : FrontToBack Value Handler) (t t' : Task Value Handler SendBack)
      → Spares id m
      → on_front m t ≡ some t'
      → Holds id t.server.batches
      → Holds id t'.server.batches
  unfolding on_front answer_found
  message-Holds id (FrontToBack.answer_request i r) t t' a e h =
      elim (Option-cases (Batches.request_by_id i t.server.batches)) [
        | inl q ↦ let g = rw (q, answer_found) at e in cc
        | inr (x, q) ↦
            let own = own_id i t.server.batches x q in
            respond-Holds (elem_id x) id r t t' x
              (subst (λ j. Batches.request_by_id j t.server.batches ≡ some x) (sym own) q)
              (rw (q, answer_found) at e) (subst (λ j. Apart j id) (sym own) a) h
      ]
  message-Holds id (FrontToBack.register_notifications name k l) t t' a e h =
      let same : t.server.batches ≡ t'.server.batches = ground (arith, e) in subst (Holds id) same h
  message-Holds id (FrontToBack.register_method name k) t t' a e h =
      let same : t.server.batches ≡ t'.server.batches = ground (arith, e) in subst (Holds id) same h

  round-Holds :
      (id : BatchesElemId) (s : RawServer Value SendBack) (t : Task Value Handler SendBack)
      → (batch_turn (Dict.keys t.server.batches.batches) t.server ≡ again s)
        ⊎ (batch_turn (Dict.keys t.server.batches.batches) t.server ≡ pull s)
      → Holds id t.server.batches
      → Holds id s.batches
  round-Holds id s t (inl b) h =
      let (o, p) =
        subst (Made (Batches.next_event (Dict.keys t.server.batches.batches) t.server.batches)) b
          (batch_turn-Made (Dict.keys t.server.batches.batches) t.server) in
      polled-Holds id t.server.batches s.batches o p h
  round-Holds id s t (inr b) h =
      let (o, p) =
        subst (Made (Batches.next_event (Dict.keys t.server.batches.batches) t.server.batches)) b
          (batch_turn-Made (Dict.keys t.server.batches.batches) t.server) in
      polled-Holds id t.server.batches s.batches o p h

  Step-Holds :
      (id : BatchesElemId) (t t' : Task Value Handler SendBack)
      → Step id t t'
      → Holds id t.server.batches
      → Holds id t'.server.batches
  Step-Holds id t t' (round s b) h = round-Holds id s t b h
  Step-Holds id t t' (dispatch takes ev s u b e) h = dispatched-Holds id takes ev s t u b e h
  Step-Holds id t t' (arrive n rq s e) h =
      let i = raw_turn-inject n rq t.server s e in
      record {
        unique = (inject-size rq (some n) t.server.batches s.batches h.unique i).1;
        waits = inject-Pending id rq (some n) t.server.batches s.batches i h.waits;
      }
  Step-Holds id t t' (message m u a e) h = message-Holds id m t u a e h

  Run-Holds :
      (id : BatchesElemId) (t t' : Task Value Handler SendBack)
      → Run id t t'
      → Holds id t.server.batches
      → Holds id t'.server.batches
  Run-Holds id t t' start h = h
  Run-Holds id t t' (then_step {u} {v} r s) h = Step-Holds id u v s (Run-Holds id t u r h)

  -- A request that was found by its id, when no batch had two entries, is found as long as it is not
  -- answered: after any rounds of the raw server, events, arrivals, registrations and answers to other
  -- requests, its handler's answer does not make the task panic. It is then answered, and every other
  -- request stays as it was.
  pub Run-answer :
      (id : BatchesElemId) (x : BatchesElem Value (Option ℕ)) (r : Result Value (Error Value))
      (t u : Task Value Handler SendBack)
      → Dict.Unique t.server.batches.batches
      → Batches.request_by_id id t.server.batches ≡ some x
      → Run id t u
      → (u' : Task Value Handler SendBack) × (on_front (FrontToBack.answer_request id r) u
          ≡ some u')
        × Refused id u u'
  unfolding on_front answer_found
  Run-answer id x r t u q f run =
      let h =
        Run-Holds id t u run
          (record { unique = q; waits = found-Pending id t.server.batches x f }) in
      let (y, found, own) = Pending-found id u.server.batches h.waits in
      let (u', done, a) = respond-Refused id r u y found in
      (u', rw (found, answer_found) (rw own done), a)
