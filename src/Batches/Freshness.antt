-- ===== src/Batches/Freshness.antt =====
-- A request that is handed out gets an id of its own (types/src/jsonrpc/wrapped/batches.rs).
use jsonrpsee.Base.{
  ℕ, List, some, false, ◌≡◌, ◌≢◌, ◌⊎◌, inl, inr, sym, ap, ◌∙◌, arith, nat_eq, ◌==◌, length,
  Bool-cases, beq_refl,
}
use jsonrpsee.Batch.{BatchState, BatchElem}
use jsonrpsee.Batch.Elements.{next-request}
use jsonrpsee.Batches.{
  BatchesState, BatchesElem, BatchesElemId, Polled, request, elem_id, next_event,
}
use jsonrpsee.Batches.Events.{entry, Lists, Distinct, Outcome, idle, event, next_event-Outcome}
use jsonrpsee.Batches.Visits.{Visited, skipped, dropped, sent, notified, asked}
use jsonrpsee.Batches.Persistence.{Pending, Waits-in, Settled-Pending, at_key, not-last}

module _ {Value T : Type 0} where
  Visited-fresh :
      (id : BatchesElemId) (k : ℕ) (b : BatchState Value) (u : T) (st st' : BatchesState Value T)
      (r : Polled Value T) (x : BatchesElem Value T)
      → entry st k ≡ some (b, u)
      → Visited k b u st r
      → r ≡ some (some (request x), st')
      → Pending id st
      → (id.outer ≢ (elem_id x).outer) ⊎ (id.inner ≢ (elem_id x).inner)
  Visited-fresh id k b u st st' r x h (skipped s f n w e) g p = cc
  Visited-fresh id k b u st st' r x h (dropped s f i w e) g p = cc
  Visited-fresh id k b u st st' r x h (sent s m f i w e) g p = cc
  Visited-fresh id k b u st st' r x h (notified s m n w e) g p = cc
  Visited-fresh id k b u st st' r x h (asked s m n a w e) g p =
      let batch : k ≡ x.batch_id = ground (arith, e, g) in
      let index : m.index ≡ x.inner.index = ground (arith, e, g) in
      elim (Bool-cases (k == id.outer)) [
        | inr q ↦
            inl (λ same. let no : (k == k) ≡ false = rw (same ∙ sym batch) at q in cc (beq_refl k))
        | inl q ↦
            let (c, shape, last) = next-request b m n in
            let end : m.index ≡ length b.requests = ap (λ (y : BatchElem Value). y.index) shape in
            let apart =
              not-last b.requests id.inner (some p.method_call)
                (Waits-in id b u st p (at_key k id.outer st (some (b, u)) q h)) in
            inr (λ same. apart (same ∙ sym index ∙ end))
      ]

  Outcome-fresh :
      (id : BatchesElemId) (ks : List ℕ) (st st' : BatchesState Value T) (r : Polled Value T)
      (x : BatchesElem Value T)
      → Outcome ks st r
      → r ≡ some (some (request x), st')
      → Pending id st
      → (id.outer ≢ (elem_id x).outer) ⊎ (id.inner ≢ (elem_id x).inner)
  Outcome-fresh id ks st st' r x (idle s t q e) h p = cc
  Outcome-fresh id ks st st' r x (event mid k b u t i at v ev s e) h p =
      Visited-fresh id k b u mid st' r x at v h (Settled-Pending id st mid t p)

  -- A request that `next_event` hands out has another id than every call that waited before.
  pub next_event-fresh :
      (id : BatchesElemId) (ks : List ℕ) (st st' : BatchesState Value T) (x : BatchesElem Value T)
      → Lists ks st
      → Distinct ks
      → next_event ks st ≡ some (some (request x), st')
      → Pending id st
      → (id.outer ≢ (elem_id x).outer) ⊎ (id.inner ≢ (elem_id x).inner)
  next_event-fresh id ks st st' x l d h p =
      Outcome-fresh id ks st st' (next_event ks st) x (next_event-Outcome ks st l d) h p
