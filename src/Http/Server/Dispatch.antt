-- ===== src/Http/Server/Dispatch.antt =====
-- What the background task of http-server/src/server.rs does with a request, and that the handler's
-- answer always finds it.
use jsonrpsee.Base.{
  ℕ, [], ◌∷◌, ◌++◌, Option, none, some, Bool, true, false, Result, err, ◌≡◌, refl, ap, ◌∙◌,
  string_eq, nat_eq,
}
use jsonrpsee.Base.Dict
use jsonrpsee.Base.Int.{pos}
use jsonrpsee.Types.Codes.{ErrorCode}
use jsonrpsee.Types.Errors.{Error, error_new}
use jsonrpsee.Types.Request.{MethodCall}
use jsonrpsee.Batches
use jsonrpsee.Batches.{BatchesState, BatchesElem, BatchesElemId, elem_id}
use jsonrpsee.Batches.Requests.{Answered, set_response-Answered}
use jsonrpsee.Http.RawServer
use jsonrpsee.Http.RawServer.{RawServer, RawServerEvent}
use jsonrpsee.Http.Server.{requested, Task, with_server, respond, on_call, on_request, on_event}

module _ {Value Handler SendBack : Type 0} where
  -- The request has its answer, and nothing else of the task has changed.
  pub record Refused (id : BatchesElemId) (t t' : Task Value Handler SendBack) : Type 0 where
    pub answer : Answered id t.server.batches t'.server.batches
    pub raw : t'.server.raw ≡ t.server.raw
    pub rest : t' ≡ record t { server = t'.server }

  pub respond-Refused :
      (id : BatchesElemId) (r : Result Value (Error Value)) (t : Task Value Handler SendBack)
      (x : BatchesElem Value (Option ℕ))
      → Batches.request_by_id id t.server.batches ≡ some x
      → (t' : Task Value Handler SendBack) × (respond id r t ≡ some t') × Refused id t t'
  unfolding respond RawServer.respond with_server
  respond-Refused id r t x h =
      let (st, e, a) = set_response-Answered id r t.server.batches x h in
      (
        record t { server = record (t.server) { batches = st } },
        rw e refl,
        record { answer = a; raw = refl; rest = refl },
      )

  -- What becomes of a request `x` that calls `c`.
  pub data Served (takes : Bool) (x : BatchesElem Value (Option ℕ)) (c : MethodCall Value)
      (t t' : Task Value Handler SendBack) : Type 0 where
    handed :
        (h : Handler)
        → Dict.get t.registered_methods c.method ≡ some h
        → takes ≡ true
        → t' ≡ record t { dispatched = t.dispatched ++ (requested h (elem_id x) c.params ∷ []) }
        → Served takes x c t t'
    busy :
        (h : Handler)
        → Dict.get t.registered_methods c.method ≡ some h
        → takes ≡ false
        → Refused (elem_id x) t t'
        → Served takes x c t t'
    unknown :
        Dict.get t.registered_methods c.method ≡ none
        → Refused (elem_id x) t t'
        → Served takes x c t t'

  on_call-Served :
      (takes : Bool) (x : BatchesElem Value (Option ℕ)) (c : MethodCall Value)
      (t : Task Value Handler SendBack) (o : Option Handler)
      → Dict.get t.registered_methods c.method ≡ o
      → Batches.request_by_id (elem_id x) t.server.batches ≡ some x
      → (t' : Task Value Handler SendBack) × (on_call takes x c o t ≡ some t')
        × Served takes x c t t'
  unfolding on_call
  on_call-Served takes x c t none e found =
      let (t', done, r) =
        respond-Refused (elem_id x) (err (error_new ErrorCode.method_not_found)) t x found in
      (t', done, unknown e r)
  on_call-Served true x c t (some h) e found = (
    record t { dispatched = t.dispatched ++ (requested h (elem_id x) c.params ∷ []) },
    refl,
    handed h e refl refl,
  )
  on_call-Served false x c t (some h) e found =
      let (t', done, r) =
        respond-Refused (elem_id x) (err (error_new (ErrorCode.server_error (pos 0)))) t x found in
      (t', done, busy h e refl r)

  -- A request that the raw server has handed out, and finds by its id, does not make the task panic. It
  -- goes to the handler that is registered for its method, and nothing else changes; or it is answered at
  -- once, when there is no handler or its channel takes nothing, and every other request stays as it was.
  pub on_event-Served :
      (takes : Bool) (x : BatchesElem Value (Option ℕ)) (c : MethodCall Value)
      (t : Task Value Handler SendBack)
      → Batches.request_by_id (elem_id x) t.server.batches ≡ some x
      → x.inner.elem ≡ some c
      → (t' : Task Value Handler SendBack) × (on_event takes (RawServerEvent.request x) t ≡ some t')
        × Served takes x c t t'
  unfolding on_event on_request
  on_event-Served takes x c t found call =
      let (t', done, s) =
        on_call-Served takes x c t (Dict.get t.registered_methods c.method) refl found in
      (t', ap (λ o. on_request takes x o t) call ∙ done, s)
