-- ===== src/Batches/Visits.antt =====
-- One round of the loop of `next_event` (types/src/jsonrpc/wrapped/batches.rs), case by case.
use jsonrpsee.Base.{
  ℕ, [], Option, none, some, Bool, true, false, ok, ◌≡◌, refl, length, if◌then◌else◌, nat_eq, ◌==◌,
  arith,
}
use jsonrpsee.Base.Dict
use jsonrpsee.Base.Dict.{Dict}
use jsonrpsee.Base.Dict.Laws.{get-insert, get-remove}
use jsonrpsee.Types.Request.{Notification}
use jsonrpsee.Types.Response.{Response}
use jsonrpsee.Batch
use jsonrpsee.Batch.{ToYield, BatchState, BatchInc, BatchElem}
use jsonrpsee.Batch.Elements.{next-request, request_by_id-Waits}
use jsonrpsee.Batches.{
  BatchesState, Polled, WhatCanWeDo, what_can_we_do, act, visit, visit_entry, send_ready,
  show_request, notification, request, ready_to_send,
}

module _ {Value : Type 0} where
  -- `next` on a batch with nothing left changes nothing.
  pub next-none :
      (b : BatchState Value) → (Batch.next b).0 ≡ none → ((Batch.next b).1 ≡ b) × (b.to_yield ≡ [])
  unfolding Batch.next
  next-none b h = ground arith

  into_response-ready :
      (b : BatchState Value)
      → Batch.is_ready_to_respond b ≡ true
      → (m : Option (Response Value)) × (Batch.into_response b ≡ ok m)
  unfolding Batch.into_response
  into_response-ready b h = rw h (_, refl)

  asked_again :
      (b : BatchState Value) (e : BatchElem Value)
      → (Batch.next b).0 ≡ some (BatchInc.request e)
      → Batch.request_by_id (Batch.next b).1 e.index ≡ some e
  asked_again b e h =
      let (c, same, waits) = next-request b e h in
      rw same (request_by_id-Waits (Batch.next b).1 (length b.requests) c waits)

module _ {Value T : Type 0} where
  -- the entry of a key, after a write at one key
  abbrev pub Writes :
      ℕ → Option (BatchState Value × T) → BatchesState Value T → BatchesState Value T → Type 0
  Writes id o st st' =
      (st'.next_batch_id ≡ st.next_batch_id)
      × ((j : ℕ) → Dict.get st'.batches j ≡ (if id == j then o else Dict.get st.batches j))

  -- What one round does with the batch `b`, whose user parameter is `u`.
  pub data Visited (id : ℕ) (b : BatchState Value) (u : T) (st : BatchesState Value T)
      (r : Polled Value T) : Type 0 where
    skipped :
        (st' : BatchesState Value T)
        → Batch.is_ready_to_respond b ≡ false
        → (Batch.next b).0 ≡ none
        → Writes id (some ((Batch.next b).1, u)) st st'
        → r ≡ some (none, st')
        → Visited id b u st r
    dropped :
        (st' : BatchesState Value T)
        → Batch.is_ready_to_respond b ≡ true
        → Batch.into_response b ≡ ok none
        → Writes id none st st'
        → r ≡ some (none, st')
        → Visited id b u st r
    sent :
        (st' : BatchesState Value T) (m : Response Value)
        → Batch.is_ready_to_respond b ≡ true
        → Batch.into_response b ≡ ok (some m)
        → Writes id none st st'
        → r ≡ some (some (ready_to_send m u), st')
        → Visited id b u st r
    notified :
        (st' : BatchesState Value T) (n : Notification Value)
        → (Batch.next b).0 ≡ some (BatchInc.notification n)
        → Writes id (some ((Batch.next b).1, u)) st st'
        → r ≡ some (some (notification n u), st')
        → Visited id b u st r
    asked :
        (st' : BatchesState Value T) (e : BatchElem Value)
        → (Batch.next b).0 ≡ some (BatchInc.request e)
        → Batch.request_by_id (Batch.next b).1 e.index ≡ some e
        → Writes id (some ((Batch.next b).1, u)) st st'
        → r ≡ some (some (request (record { batch_id = id; inner = e; user_param = u })), st')
        → Visited id b u st r

  insert-Writes :
      (id : ℕ) (b : BatchState Value) (u : T) (st : BatchesState Value T)
      → Writes id (some (b, u)) st (record st { batches = Dict.insert st.batches id (b, u) })
  insert-Writes id b u st = (refl, λ j. get-insert st.batches id j (b, u))

  remove-Writes :
      (id : ℕ) (b : BatchState Value) (u : T) (st : BatchesState Value T)
      → Writes id none st
          (record st { batches = Dict.remove (Dict.insert st.batches id (b, u)) id })
  remove-Writes id b u st = (
    refl,
    λ j.
        rw (get-remove (Dict.insert st.batches id (b, u)) id j, get-insert st.batches id j (b, u))
          (ground arith),
  )

  visit_ready :
      (id : ℕ) (b b' : BatchState Value) (u : T) (st : BatchesState Value T)
      → Batch.is_ready_to_respond b ≡ true
      → b' ≡ b
      → (m : Option (Response Value)) → Batch.into_response b ≡ ok m
      → Visited id b u st (
          act WhatCanWeDo.ready_to_respond id b' u
            (record st { batches = Dict.insert st.batches id (b', u) }))
  unfolding act send_ready
  visit_ready id b b' u st h same none i =
      dropped _ h i (remove-Writes id b' u st) (rw (same, i, send_ready))
  visit_ready id b b' u st h same (some m) i =
      sent _ m h i (remove-Writes id b' u st) (rw (same, i, send_ready))

  visit_next :
      (id : ℕ) (b : BatchState Value) (u : T) (st : BatchesState Value T) (ready : Bool)
      (inc : Option (BatchInc Value))
      → Batch.is_ready_to_respond b ≡ ready
      → (Batch.next b).0 ≡ inc
      → Visited id b u st (
          act
            (what_can_we_do ready inc)
            id
            (Batch.next b).1
            u
            (record st { batches = Dict.insert st.batches id ((Batch.next b).1, u) }))
  unfolding what_can_we_do act show_request
  visit_next id b u st true none h n =
      let (m, i) = into_response-ready b h in
      visit_ready id b (Batch.next b).1 u st h (next-none b n).0 m i
  visit_next id b u st false none h n = skipped _ h n (insert-Writes id (Batch.next b).1 u st) refl
  visit_next id b u st true (some (BatchInc.notification m)) h n =
      notified _ m n (insert-Writes id (Batch.next b).1 u st) refl
  visit_next id b u st false (some (BatchInc.notification m)) h n =
      notified _ m n (insert-Writes id (Batch.next b).1 u st) refl
  visit_next id b u st true (some (BatchInc.request e)) h n =
      let a = asked_again b e n in
      asked _ e n a (insert-Writes id (Batch.next b).1 u st) (rw (a, show_request))
  visit_next id b u st false (some (BatchInc.request e)) h n =
      let a = asked_again b e n in
      asked _ e n a (insert-Writes id (Batch.next b).1 u st) (rw (a, show_request))

  -- A round on a key of the table does not panic, and is one of the five cases.
  pub visit-Visited :
      (id : ℕ) (b : BatchState Value) (u : T) (st : BatchesState Value T)
      → Dict.get st.batches id ≡ some (b, u)
      → Visited id b u st (visit id st)
  unfolding visit
  visit-Visited id b u st h =
      rw (h, visit_entry)
        (visit_next id b u st (Batch.is_ready_to_respond b) (Batch.next b).0 refl refl)
