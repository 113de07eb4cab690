-- ===== src/Batches/Answers.antt =====
-- What answers and requests that come in do to the requests that wait
-- (types/src/jsonrpc/wrapped/batches.rs).
use jsonrpsee.Base.{
  ℕ, zero, suc, ◌+◌, ◌%◌, Option, none, some, Result, ◌≡◌, ◌≢◌, ◌⊎◌, inl, inr, refl, sym, ap, ◌∙◌,
  subst, arith, nat_eq, ◌==◌, length, Bool-cases,
}
use jsonrpsee.Base.Dict
use jsonrpsee.Types.Request.{Request}
use jsonrpsee.Batch
use jsonrpsee.Batch.{BatchState, BatchElem, BatchInc}
use jsonrpsee.Batch.Elements.{elem_of, request_by_id-Waits}
use jsonrpsee.Batches.{
  BatchesState, BatchesElem, BatchesElemId, elem_id, request_by_id, request_in, elem_in,
  set_response, answer_in, store_batch, inject, inject_loop, u64_mod,
}
use jsonrpsee.Batches.Requests
use jsonrpsee.Batches.Requests.{Answered, set_response-Answered}
use jsonrpsee.Types.Errors.{Error}
use jsonrpsee.Base.Dict.Laws.{insert-Unique, get-insert}
use jsonrpsee.Batches.Injection.{Injected}
use jsonrpsee.Batches.Persistence.{Pending, moved, at_key}

module _ {Value T : Type 0} where
  -- A call waits if and only if `request_by_id` finds it, under its own id.
  pub Pending-found :
      (id : BatchesElemId) (st : BatchesState Value T)
      → Pending id st
      → (x : BatchesElem Value T) × (request_by_id id st ≡ some x) × (elem_id x ≡ id)
  unfolding request_by_id request_in elem_in
  Pending-found id st p = (
    record { batch_id = id.outer; inner = elem_of id.inner p.method_call; user_param = p.param },
    rw p.there (rw (request_by_id-Waits p.state id.inner p.method_call p.waits) refl),
    refl,
  )

  pub found-Pending :
      (id : BatchesElemId) (st : BatchesState Value T) (x : BatchesElem Value T)
      → request_by_id id st ≡ some x
      → Pending id st
  found-Pending id st x h =
      let (b, u, c, at, w, shape) = Requests.request_by_id-Waits id st x h in
      record { state = b; param = u; method_call = c; there = at; waits = w }

  -- An answer leaves every other call where it is.
  pub set_response-Pending :
      (id other : BatchesElemId) (r : Result Value (Error Value)) (st st' : BatchesState Value T)
      (x : BatchesElem Value T)
      → request_by_id id st ≡ some x
      → set_response id r st ≡ some st'
      → (id.outer ≢ other.outer) ⊎ (id.inner ≢ other.inner)
      → Pending other st
      → Pending other st'
  set_response-Pending id other r st st' x h e apart p =
      let (s, same, a) = set_response-Answered id r st x h in
      let (y, found, own) = Pending-found other st p in
      found-Pending other st' y (
        subst (λ t. request_by_id other t ≡ some y) (ground (arith, e, same))
          (a.others other apart ∙ found))

  store_batch-Unique :
      (k : ℕ) (u : T) (o : Option (BatchState Value)) (st st' : BatchesState Value T)
      → Dict.Unique st.batches
      → store_batch k u o st ≡ some st'
      → Dict.Unique st'.batches
  unfolding store_batch
  store_batch-Unique k u none st st' q e = cc
  store_batch-Unique k u (some b) st st' q e =
      let new : Dict.insert st.batches k (b, u) ≡ st'.batches = ground (arith, e) in
      rw (← new) (insert-Unique st.batches k (b, u) q)

  answer_in-Unique :
      (id : BatchesElemId) (r : Result Value (Error Value)) (o : Option (BatchState Value × T))
      (st st' : BatchesState Value T)
      → Dict.Unique st.batches
      → answer_in id r o st ≡ some st'
      → Dict.Unique st'.batches
  unfolding answer_in
  answer_in-Unique id r none st st' q e = cc
  answer_in-Unique id r (some (b, u)) st st' q e =
      store_batch-Unique id.outer u (Batch.set_response b id.inner r) st st' q e

  pub set_response-Unique :
      (id : BatchesElemId) (r : Result Value (Error Value)) (st st' : BatchesState Value T)
      → Dict.Unique st.batches
      → set_response id r st ≡ some st'
      → Dict.Unique st'.batches
  unfolding set_response
  set_response-Unique id r st st' q e =
      answer_in-Unique id r (Dict.get st.batches id.outer) st st' q e

  Injected-Pending :
      (id : BatchesElemId) (b : BatchState Value) (u : T) (st st' : BatchesState Value T)
      → Injected b u st st'
      → Pending id st
      → Pending id st'
  Injected-Pending id b u st st' i p = elim (Bool-cases (i.id == id.outer)) [
    | inr e ↦ moved id st st' (i.entries id.outer ∙ rw e refl) p
    | inl e ↦ cc (at_key i.id id.outer st none e i.vacant, p.there)
  ]

  inject_loop-Injected :
      (fuel : ℕ) (b : BatchState Value) (u : T) (st st' : BatchesState Value T)
      → inject_loop fuel b u st ≡ some st'
      → Injected b u st st'
  unfolding inject_loop
  inject_loop-Injected zero b u st st' h = cc
  inject_loop-Injected (suc fuel) b u st st' h =
      elim (Bool-cases (Dict.contains st.batches st.next_batch_id)) [
        | inl taken ↦
            let i =
              inject_loop-Injected fuel b u
                (record st { next_batch_id = (st.next_batch_id + 1) % u64_mod }) st'
                (rw taken at h) in
            record { id = i.id; vacant = i.vacant; entries = i.entries; advanced = i.advanced }
        | inr free ↦
            let found = rw free at h in
            record {
              id = st.next_batch_id;
              vacant = ground arith;
              entries = λ j.
                  ap
                    (λ (o : Option (BatchesState Value T)). elim o [
                      | some s ↦ Dict.get s.batches j
                      | none ↦ none
                    ])
                    (sym found)
                  ∙ get-insert st.batches st.next_batch_id j (b, u);
              advanced = ground (arith, found);
            }
      ]

  -- An `inject` that ends has put the batch at a vacant id.
  pub inject-Injected_if :
      (rq : Request Value) (u : T) (st st' : BatchesState Value T)
      → inject rq u st ≡ some st'
      → Injected (Batch.from_request rq) u st st'
  unfolding inject
  inject-Injected_if rq u st st' h =
      inject_loop-Injected (suc (length st.batches)) (Batch.from_request rq) u st st' h

  -- An `inject` that ends leaves every waiting call where it is.
  pub inject-Pending :
      (id : BatchesElemId) (rq : Request Value) (u : T) (st st' : BatchesState Value T)
      → inject rq u st ≡ some st'
      → Pending id st
      → Pending id st'
  inject-Pending id rq u st st' h p =
      Injected-Pending id (Batch.from_request rq) u st st' (inject-Injected_if rq u st st' h) p
