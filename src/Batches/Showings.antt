-- ===== src/Batches/Showings.antt =====
-- What a call of `next_event` changes of the requests that are found by their ids
-- (types/src/jsonrpc/wrapped/batches.rs).
use jsonrpsee.Base.{
  ℕ, List, Option, none, some, ◌≡◌, inl, inr, refl, ap, ◌∙◌, subst, arith, nat_eq, Option-cases,
}
use jsonrpsee.Batch
use jsonrpsee.Batch.{BatchState}
use jsonrpsee.Batches.{
  BatchesState, BatchesEvent, BatchesElem, Polled, request, notification, ready_to_send, elem_id,
  next_event, request_by_id,
}
use jsonrpsee.Batches.Events.{Lists, Distinct, Outcome, idle, event, entry}
use jsonrpsee.Batches.Visits.{Visited, skipped, dropped, sent, notified, asked, next-none}
use jsonrpsee.Batches.Freshness.{next_event-fresh}
use jsonrpsee.Batches.Answers.{found-Pending}
use jsonrpsee.Batches.Views.{
  Alike, Shown, Settled-Alike, gone-Alike, kept-Alike, asked-Shown, notification-requests,
}

module _ {Value T : Type 0} where
  -- What a poll shows, without that a request is new.
  abbrev pub Showing :
      Option (BatchesEvent Value T) → BatchesState Value T → BatchesState Value T → Type 0
  Showing (some (request x)) st st' = Shown x st st'
  Showing (some (notification n u)) st st' = Alike st st'
  Showing (some (ready_to_send r u)) st st' = Alike st st'
  Showing none st st' = Alike st st'

  Visited-Showing :
      (k : ℕ) (b : BatchState Value) (u : T) (st : BatchesState Value T) (r : Polled Value T)
      → entry st k ≡ some (b, u)
      → Visited k b u st r
      → (o : Option (BatchesEvent Value T)) × (s : BatchesState Value T) × (r ≡ some (o, s))
        × Showing o st s
  Visited-Showing k b u st r h (skipped s f n w e) = (
    none,
    s,
    e,
    kept-Alike k b (Batch.next b).1 u st s h
        (ap (λ (c : BatchState Value). c.requests) (next-none b n).0) w,
  )
  Visited-Showing k b u st r h (dropped s f i w e) = (none, s, e, gone-Alike k b u st s h f w)
  Visited-Showing k b u st r h (sent s m f i w e) =
      (some (ready_to_send m u), s, e, gone-Alike k b u st s h f w)
  Visited-Showing k b u st r h (notified s m n w e) = (
    some (notification m u),
    s,
    e,
    kept-Alike k b (Batch.next b).1 u st s h (notification-requests b m n) w,
  )
  Visited-Showing k b u st r h (asked s m n a w e) = (
    some (request (record { batch_id = k; inner = m; user_param = u })),
    s,
    e,
    asked-Shown k b u m st s h n w,
  )

  Showing-after :
      (o : Option (BatchesEvent Value T)) (st mid s : BatchesState Value T)
      → Alike st mid
      → Showing o mid s
      → Showing o st s
  Showing-after (some (request x)) st mid s a h = λ id. rw (← a id) (h id)
  Showing-after (some (notification n u)) st mid s a h = λ id. h id ∙ a id
  Showing-after (some (ready_to_send r u)) st mid s a h = λ id. h id ∙ a id
  Showing-after none st mid s a h = λ id. h id ∙ a id

  Showing-same :
      (o o' : Option (BatchesEvent Value T)) (st s s' : BatchesState Value T) (r : Polled Value T)
      → r ≡ some (o', s')
      → r ≡ some (o, s)
      → Showing o' st s'
      → Showing o st s
  Showing-same o o' st s s' r g h t =
      let p : o' ≡ o = ground (arith, g, h) in
      let q : s' ≡ s = ground (arith, g, h) in
      subst (λ x. Showing x st s) p (subst (λ x. Showing o' st x) q t)

  pub Outcome-Showing :
      (ks : List ℕ) (st s : BatchesState Value T) (r : Polled Value T)
      (o : Option (BatchesEvent Value T))
      → Outcome ks st r
      → r ≡ some (o, s)
      → Showing o st s
  Outcome-Showing ks st s r o (idle s' t q e) h =
      Showing-same o none st s s' r e h (Settled-Alike st s' t)
  Outcome-Showing ks st s r o (event mid k b u t i at v ev s' e) h =
      let (o', s'', e', shown) = Visited-Showing k b u mid r at v in
      Showing-same o o' st s s'' r e' h (Showing-after o' st mid s'' (Settled-Alike st mid t) shown)

  pub handed_new :
      (ks : List ℕ) (st s : BatchesState Value T) (x : BatchesElem Value T)
      → Lists ks st
      → Distinct ks
      → next_event ks st ≡ some (some (request x), s)
      → request_by_id (elem_id x) st ≡ none
  handed_new ks st s x l d h = elim (Option-cases (request_by_id (elem_id x) st)) [
    | inl e ↦ e
    | inr (y, e) ↦
        elim (next_event-fresh (elem_id x) ks st s x l d h (found-Pending (elem_id x) st y e)) [
          | inl n ↦ absurd (n refl)
          | inr n ↦ absurd (n refl)
        ]
  ]
