-- ===== src/Batches/Requests.antt =====
-- `request_by_id` and `set_response` (types/src/jsonrpc/wrapped/batches.rs).
use jsonrpsee.Base.{
  ℕ, List, Option, none, some, true, false, Result, ◌≡◌, ◌≢◌, ◌⊎◌, inl, inr, refl, sym, ap, ◌∙◌,
  subst, nat_eq, ◌==◌, arith, beq_refl, Bool-cases, nat_beq_iff,
}
use jsonrpsee.Base.Dict
use jsonrpsee.Base.Dict.Laws.{get-insert}
use jsonrpsee.Types.Errors.{Error}
use jsonrpsee.Types.Request.{MethodCall}
use jsonrpsee.Batch
use jsonrpsee.Batch.{BatchState, BatchElem}
use jsonrpsee.Batch.Accounts.{answered}
use jsonrpsee.Batch.Elements.{Waits, elem_of, request_by_id-some, set_response_lem}
use jsonrpsee.Batches.{
  BatchesState, BatchesElem, BatchesElemId, Polled, request, next_event, elem_id, request_by_id,
  request_in, elem_in, set_response, answer_in, store_batch,
}
use jsonrpsee.Batches.Events.{Lists, Distinct, Outcome, idle, event, next_event-Outcome}
use jsonrpsee.Batches.Visits.{Writes, Visited, skipped, dropped, sent, notified, asked}

module _ {Value T : Type 0} where
  elem_in-some :
      (id : ℕ) (u : T) (o : Option (BatchElem Value)) (x : BatchesElem Value T)
      → elem_in id u o ≡ some x
      → (e : BatchElem Value) × (o ≡ some e)
        × (x ≡ record { batch_id = id; inner = e; user_param = u })
  unfolding elem_in
  elem_in-some id u none x h = cc
  elem_in-some id u (some e) x h = (e, refl, ground arith)

  request_in-some :
      (id : BatchesElemId) (o : Option (BatchState Value × T)) (x : BatchesElem Value T)
      → request_in id o ≡ some x
      → (b : BatchState Value) × (u : T) × (c : MethodCall Value) × (o ≡ some (b, u))
        × Waits b id.inner c
        × (x ≡ record { batch_id = id.outer; inner = elem_of id.inner c; user_param = u })
  unfolding request_in
  request_in-some id none x h = cc
  request_in-some id (some (b, u)) x h =
      let (e, at, same) = elem_in-some id.outer u (Batch.request_by_id b id.inner) x h in
      let (c, waits, shape) = request_by_id-some b id.inner e at in
      (
        b,
        u,
        c,
        refl,
        waits,
        same
            ∙ ap
                (λ (i : BatchElem Value). record { batch_id = id.outer; inner = i; user_param = u })
                shape,
      )

  -- A request that `request_by_id` returns is one that waits in its batch, under that very id.
  pub request_by_id-Waits :
      (id : BatchesElemId) (st : BatchesState Value T) (x : BatchesElem Value T)
      → request_by_id id st ≡ some x
      → (b : BatchState Value) × (u : T) × (c : MethodCall Value) × (Dict.get st.batches id.outer
          ≡ some (b, u))
        × Waits b id.inner c
        × (x ≡ record { batch_id = id.outer; inner = elem_of id.inner c; user_param = u })
  unfolding request_by_id
  request_by_id-Waits id st x h = request_in-some id (Dict.get st.batches id.outer) x h

  set_response-at :
      (id : BatchesElemId) (r : Result Value (Error Value)) (st : BatchesState Value T)
      (b b' : BatchState Value) (u : T)
      → Dict.get st.batches id.outer ≡ some (b, u)
      → Batch.set_response b id.inner r ≡ some b'
      → (st' : BatchesState Value T) × (set_response id r st ≡ some st')
        × Writes id.outer (some (b', u)) st st'
  unfolding set_response
  set_response-at id r st b b' u h e = (
    _,
    rw (h, answer_in, e, store_batch) refl,
    (refl, λ j. get-insert st.batches id.outer j (b', u)),
  )

  request_by_id-entry :
      (id : BatchesElemId) (st : BatchesState Value T) (b : BatchState Value) (u : T)
      → Dict.get st.batches id.outer ≡ some (b, u)
      → request_by_id id st ≡ elem_in id.outer u (Batch.request_by_id b id.inner)
  unfolding request_by_id
  request_by_id-entry id st b u h = rw (h, request_in)

  pub request_by_id-ap :
      (id : BatchesElemId) (st st' : BatchesState Value T)
      → Dict.get st'.batches id.outer ≡ Dict.get st.batches id.outer
      → request_by_id id st' ≡ request_by_id id st
  unfolding request_by_id
  request_by_id-ap id st st' h = ap (request_in id) h

  request_by_id-absent :
      (id : BatchesElemId) (st : BatchesState Value T) (b : BatchState Value) (u : T)
      → Dict.get st.batches id.outer ≡ some (b, u)
      → Batch.request_by_id b id.inner ≡ none
      → request_by_id id st ≡ none
  unfolding elem_in
  request_by_id-absent id st b u h e = request_by_id-entry id st b u h ∙ rw (e, elem_in)

  -- The call of an id has its answer: its batch has lost the request, and nothing else has changed.
  pub record Answered (id : BatchesElemId) (st st' : BatchesState Value T) : Type 0 where
    pub gone : request_by_id id st' ≡ none
    pub others :
        (other : BatchesElemId)
        → (id.outer ≢ other.outer) ⊎ (id.inner ≢ other.inner)
        → request_by_id other st' ≡ request_by_id other st

  Writes-Answered :
      (id : BatchesElemId) (st st' : BatchesState Value T) (b b' : BatchState Value) (u : T)
      → Dict.get st.batches id.outer ≡ some (b, u)
      → Batch.request_by_id b' id.inner ≡ none
      → ((j : ℕ) → id.inner ≢ j → Batch.request_by_id b' j ≡ Batch.request_by_id b j)
      → Writes id.outer (some (b', u)) st st'
      → Answered id st st'
  unfolding elem_in
  Writes-Answered id st st' b b' u at gone keep (n, w) = record {
    gone =
        request_by_id-entry id st' b' u (w id.outer ∙ rw (beq_refl id.outer)) ∙ rw (gone, elem_in);
    others = λ other apart. go other apart (Bool-cases (id.outer == other.outer));
  }
    where
      same_batch :
          (other : BatchesElemId)
          → id.outer ≡ other.outer
          → id.inner ≢ other.inner
          → request_by_id other st' ≡ request_by_id other st
      same_batch other e h =
          request_by_id-entry other st' b' u (w other.outer ∙ rw (e, beq_refl other.outer))
          ∙ ap (elem_in other.outer u) (keep other.inner h)
          ∙ sym (request_by_id-entry other st b u (rw (← e) at))

      go :
          (other : BatchesElemId)
          → (id.outer ≢ other.outer) ⊎ (id.inner ≢ other.inner)
          → ((id.outer == other.outer) ≡ true) ⊎ ((id.outer == other.outer) ≡ false)
          → request_by_id other st' ≡ request_by_id other st
      go other (inl h) (inl e) = absurd (h ((nat_beq_iff id.outer other.outer).0 e))
      go other (inr h) (inl e) = same_batch other ((nat_beq_iff id.outer other.outer).0 e) h
      go other apart (inr e) = request_by_id-ap other st st' (w other.outer ∙ rw e)

  -- Answering a request that `request_by_id` returns does not panic. From then on its id is refused,
  -- and every other request of every batch is found as before.
  pub set_response-Answered :
      (id : BatchesElemId) (r : Result Value (Error Value)) (st : BatchesState Value T)
      (x : BatchesElem Value T)
      → request_by_id id st ≡ some x
      → (st' : BatchesState Value T) × (set_response id r st ≡ some st') × Answered id st st'
  set_response-Answered id r st x h =
      let (b, u, c, at, waits, shape) = request_by_id-Waits id st x h in
      elim (set_response_lem b id.inner r) [
        | inl (d, w, e, gone, keep) ↦
            let (st', done, writes) = set_response-at id r st b (answered b id.inner d r) u at e in
            (st', done, Writes-Answered id st st' b (answered b id.inner d r) u at gone keep writes)
        | inr (gone, no_answer) ↦ cc (request_by_id-absent id st b u at gone, h)
      ]

  Visited-request :
      (id : ℕ) (b : BatchState Value) (u : T) (st : BatchesState Value T) (r : Polled Value T)
      (x : BatchesElem Value T) (st' : BatchesState Value T)
      → Visited id b u st r
      → r ≡ some (some (request x), st')
      → request_by_id (elem_id x) st' ≡ some x
  unfolding elem_in
  Visited-request id b u st r x st' (skipped s f n w e) h = cc
  Visited-request id b u st r x st' (dropped s f i w e) h = cc
  Visited-request id b u st r x st' (sent s m f i w e) h = cc
  Visited-request id b u st r x st' (notified s m n w e) h = cc
  Visited-request id b u st r x st' (asked s m n a w e) h =
      let y : BatchesElem Value T = record { batch_id = id; inner = m; user_param = u } in
      let same : y ≡ x = ground arith in
      let after : s ≡ st' = ground arith in
      let found : request_by_id (elem_id y) s ≡ some y =
        request_by_id-entry (elem_id y) s (Batch.next b).1 u (w.1 id ∙ rw (beq_refl id))
        ∙ rw (a, elem_in) in
      subst (λ z. request_by_id (elem_id z) st' ≡ some z) same
        (subst (λ t. request_by_id (elem_id y) t ≡ some y) after found)

  Outcome-request :
      (ks : List ℕ) (st : BatchesState Value T) (r : Polled Value T) (x : BatchesElem Value T)
      (st' : BatchesState Value T)
      → Outcome ks st r
      → r ≡ some (some (request x), st')
      → request_by_id (elem_id x) st' ≡ some x
  Outcome-request ks st r x st' (idle s t q e) h = cc
  Outcome-request ks st r x st' (event mid id b u t i at v ev s e) h =
      Visited-request id b u mid r x st' v h

  -- The request that `next_event` returns is found by its id in the state that it leaves.
  pub next_event-request :
      (ks : List ℕ) (st st' : BatchesState Value T) (x : BatchesElem Value T)
      → Lists ks st
      → Distinct ks
      → next_event ks st ≡ some (some (request x), st')
      → request_by_id (elem_id x) st' ≡ some x
  next_event-request ks st st' x l d h =
      Outcome-request ks st (next_event ks st) x st' (next_event-Outcome ks st l d) h
