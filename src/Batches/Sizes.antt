-- ===== src/Batches/Sizes.antt =====
-- How `next_event` and `inject` (types/src/jsonrpc/wrapped/batches.rs) change the number of batches,
-- and that no id is ever held twice.
use jsonrpsee.Base.{
  ℕ, zero, suc, ◌+◌, ◌%◌, ◌≤◌, ◌<◌, List, [], ◌∷◌, Option, none, some, Result, ok, err, ◌≡◌, inl,
  inr, refl, sym, ◌∙◌, nat_eq, ◌==◌, arith, Bool-cases, length, beq_refl, nat_beq_iff, subst,
}
use jsonrpsee.Base.Dict
use jsonrpsee.Base.Dict.{Dict}
use jsonrpsee.Base.Dict.Laws.{insert-Unique, remove-Unique, get-insert}
use jsonrpsee.Base.Dict.Counting.{length-insert, length-remove_lt, length-insert_le}
use jsonrpsee.Types.Request.{Request}
use jsonrpsee.Types.Response.{Response}
use jsonrpsee.Batch
use jsonrpsee.Batch.{BatchState, BatchElem}
use jsonrpsee.Batches.{
  BatchesState, BatchesEvent, Polled, WhatCanWeDo, act, visit, visit_entry, what_can_we_do,
  send_ready, show_request, next_event, inject, inject_loop, u64_mod, ready_to_send,
}
use jsonrpsee.Batches.Events.{In, Distinct}

-- The keys of a table are in the table, and without double entries they are distinct.
pub In-keys :
    {W : Type 0} (d : Dict ℕ W) (j : ℕ) → In j (Dict.keys d) → (w : W) × (Dict.get d j ≡ some w)
unfolding Dict.get
In-keys [] j i = elim i [ ]
In-keys ((k, w) ∷ d) j (inl p) = (w, rw ((nat_beq_iff k j).1 (sym p)))
In-keys ((k, w) ∷ d) j (inr i) = elim (Bool-cases (k == j)) [
  | inl same ↦ (w, rw same)
  | inr other ↦ let (v, at) = In-keys d j i in (v, rw other at)
]

pub Distinct-keys : {W : Type 0} (d : Dict ℕ W) → Dict.Unique d → Distinct (Dict.keys d)
Distinct-keys [] u = tt
Distinct-keys ((k, w) ∷ d) u =
    (λ j i p. let (v, at) = In-keys d j i in cc (u.0, at, p), Distinct-keys d u.1)

module _ {Value T : Type 0} where
  -- the batches that an event has taken out of the table
  abbrev pub freed : Option (BatchesEvent Value T) → ℕ
  freed none = 0
  freed (some (BatchesEvent.notification n u)) = 0
  freed (some (BatchesEvent.request x)) = 0
  freed (some (ready_to_send r u)) = 1

  -- How the table that a poll leaves compares with one of size `n`.
  abbrev pub Shrinks : ℕ → Polled Value T → Type 0
  Shrinks n none = Unit
  Shrinks n (some (o, st')) = (length st'.batches + freed o ≤ n) × Dict.Unique st'.batches

  send_ready-Shrinks :
      (r : Result (Option (Response Value)) (BatchState Value)) (u : T) (st : BatchesState Value T)
      (n : ℕ)
      → length st.batches < n
      → Dict.Unique st.batches
      → Shrinks n (send_ready r u st)
  unfolding send_ready
  send_ready-Shrinks (err b) u st n h q = tt
  send_ready-Shrinks (ok none) u st n h q = (omega arith, q)
  send_ready-Shrinks (ok (some r)) u st n h q = (omega arith, q)

  show_request-Shrinks :
      (id : ℕ) (o : Option (BatchElem Value)) (u : T) (st : BatchesState Value T) (n : ℕ)
      → length st.batches ≤ n
      → Dict.Unique st.batches
      → Shrinks n (show_request id o u st)
  unfolding show_request
  show_request-Shrinks id none u st n h q = tt
  show_request-Shrinks id (some e) u st n h q = (omega arith, q)

  act-Shrinks :
      (w : WhatCanWeDo Value) (id : ℕ) (b : BatchState Value) (u : T) (st : BatchesState Value T)
      (entry : BatchState Value × T)
      → Dict.get st.batches id ≡ some entry
      → Dict.Unique st.batches
      → Shrinks (length st.batches) (act w id b u st)
  unfolding act
  act-Shrinks WhatCanWeDo.nothing id b u st entry h q = (omega arith, q)
  act-Shrinks WhatCanWeDo.ready_to_respond id b u st entry h q =
      send_ready-Shrinks (Batch.into_response b) u
        (record st { batches = Dict.remove st.batches id }) (length st.batches)
        (length-remove_lt st.batches id entry h) (remove-Unique st.batches id q)
  act-Shrinks (WhatCanWeDo.notification m) id b u st entry h q = (omega arith, q)
  act-Shrinks (WhatCanWeDo.request i) id b u st entry h q =
      show_request-Shrinks id (Batch.request_by_id b i) u st (length st.batches) (omega arith) q

  visit_entry-Shrinks :
      (id : ℕ) (o : Option (BatchState Value × T)) (st : BatchesState Value T)
      → Dict.get st.batches id ≡ o
      → Dict.Unique st.batches
      → Shrinks (length st.batches) (visit_entry id o st)
  unfolding visit_entry
  visit_entry-Shrinks id none st h q = tt
  visit_entry-Shrinks id (some (b, u)) st h q =
      let w : WhatCanWeDo Value = what_can_we_do (Batch.is_ready_to_respond b) (Batch.next b).0 in
      let entry : BatchState Value × T = ((Batch.next b).1, u) in
      let st' : BatchesState Value T = record st { batches = Dict.insert st.batches id entry } in
      rw (length-insert st.batches id entry (b, u) h) at (
        act-Shrinks w id (Batch.next b).1 u st' entry
          (get-insert st.batches id id entry ∙ rw (beq_refl id))
          (insert-Unique st.batches id entry q))

  Shrinks-le : (m n : ℕ) (p : Polled Value T) → m ≤ n → Shrinks m p → Shrinks n p
  Shrinks-le m n none h s = tt
  Shrinks-le m n (some (o, st')) h s = (omega arith, s.1)

  -- `next_event` adds no batch, takes one out where a response is ready, and keeps the ids distinct.
  pub next_event-Shrinks :
      (ks : List ℕ) (st : BatchesState Value T)
      → Dict.Unique st.batches
      → Shrinks (length st.batches) (next_event ks st)
  unfolding next_event
  next_event-Shrinks [] st q = (omega arith, q)
  next_event-Shrinks (k ∷ ks) st q =
      go (visit k st) (unfold visit in visit_entry-Shrinks k (Dict.get st.batches k) st refl q)
        (λ st' q'. next_event-Shrinks ks st' q')
    where
      go :
          (p : Polled Value T)
          → Shrinks (length st.batches) p
          → ((st' : BatchesState Value T)
              → Dict.Unique st'.batches
              → Shrinks (length st'.batches) (next_event ks st'))
          → Shrinks (length st.batches) (elim p [
            | none ↦ none
            | some (o, st') ↦ elim o [ some ev ↦ some (some ev, st') | none ↦ next_event ks st' ]
          ])
      go none s ih = tt
      go (some (none, st')) s ih =
          Shrinks-le (length st'.batches) (length st.batches) (next_event ks st') (omega arith)
            (ih st' s.1)
      go (some (some ev, st')) s ih = s

  -- A successful loop of `inject` adds one batch, keeps the ids distinct, and leaves a number of type
  -- `u64` as the next id.
  pub inject_loop-size :
      (fuel : ℕ) (b : BatchState Value) (u : T) (st st' : BatchesState Value T)
      → Dict.Unique st.batches
      → inject_loop fuel b u st ≡ some st'
      → (length st'.batches ≤ suc (length st.batches))
        × Dict.Unique st'.batches
        × (st'.next_batch_id < u64_mod)
  unfolding inject_loop
  inject_loop-size zero b u st st' q h = cc
  inject_loop-size (suc fuel) b u st st' q h =
      elim (Bool-cases (Dict.contains st.batches st.next_batch_id)) [
        | inl taken ↦
            inject_loop-size fuel b u
              (record st { next_batch_id = (st.next_batch_id + 1) % u64_mod }) st' q (rw taken at h)
        | inr free ↦
            let added : BatchesState Value T = record {
              next_batch_id = (st.next_batch_id + 1) % u64_mod;
              batches = Dict.insert st.batches st.next_batch_id (b, u);
            } in
            let found : some added ≡ some st' = rw free at h in
            let same : added ≡ st' = cc in
            subst
              (λ (t : BatchesState Value T).
                (length t.batches ≤ suc (length st.batches))
                × Dict.Unique t.batches
                × (t.next_batch_id < u64_mod))
              same
              (
                length-insert_le st.batches st.next_batch_id (b, u),
                insert-Unique st.batches st.next_batch_id (b, u) q,
                omega arith,
              )
      ]

  pub inject-size :
      (rq : Request Value) (u : T) (st st' : BatchesState Value T)
      → Dict.Unique st.batches
      → inject rq u st ≡ some st'
      → (length st'.batches ≤ suc (length st.batches))
        × Dict.Unique st'.batches
        × (st'.next_batch_id < u64_mod)
  unfolding inject
  inject-size rq u st st' q h =
      inject_loop-size (suc (length st.batches)) (Batch.from_request rq) u st st' q h
