-- ===== src/Http/RawServer/Rounds.antt =====
-- What a round of the loop in `next_event` of http-server/src/raw/core.rs does with the batches and
-- the transport.
use jsonrpsee.Base.{
  ℕ, [], ◌∷◌, ◌++◌, Option, none, some, true, ok, if◌then◌else◌, ◌==◌, ◌≡◌, inl, inr, refl, nat_eq,
  Option-cases,
}
use jsonrpsee.Base.Dict
use jsonrpsee.Base.Dict.Laws.{get-remove}
use jsonrpsee.Types.Request.{Notification}
use jsonrpsee.Types.Response.{Response}
use jsonrpsee.Batch
use jsonrpsee.Batch.{BatchState, BatchElem, BatchInc}
use jsonrpsee.Batches
use jsonrpsee.Batches.{BatchesState, BatchesEvent, BatchesElem, Polled, elem_id, u64_mod}
use jsonrpsee.Batches.Events.{entry, Settled, In, IsWaiting, idle, event}
use jsonrpsee.Batches.Visits.{Writes, Visited, skipped, dropped, sent, notified, asked}
use jsonrpsee.Batches.Requests.{next_event-request}
use jsonrpsee.Batches.Sizes.{Distinct-keys}
use jsonrpsee.Batches.Keys.{keys-Lists, keys-Outcome}
use jsonrpsee.Http.Transport
use jsonrpsee.Http.Transport.{HttpTransportServer, finish, finish_with}
use jsonrpsee.Http.RawServer.{
  RawServer, RawServerEvent, Turn, returned, again, pull, batch_turn, after_batches, show_request,
}

-- The batch `b`, whose request is `u`, stands under the id `k` in `mid`, which is the table `st` less
-- batches that are answered and have nothing to send.
pub record Chosen {Value : Type 0} (st mid : BatchesState Value (Option ℕ)) (k : ℕ)
    (b : BatchState Value) (u : Option ℕ) : Type 0 where
  pub settled : Settled st mid
  pub there : entry mid k ≡ some (b, u)

module _ {Value SendBack : Type 0} where
  -- The response goes to the channel of that request, which is open no more; where the request is not
  -- open, nothing changes.
  pub data Replied (id : ℕ) (r : Response Value) (t t' : HttpTransportServer Value SendBack)
      : Type 0 where
    to_channel :
        (c : SendBack)
        → Dict.get t.requests id ≡ some c
        → t'.responded ≡ t.responded ++ ((c, some r) ∷ [])
        → ((j : ℕ) → Dict.get t'.requests j ≡ (if id == j then none else Dict.get t.requests j))
        → t'.next_request_id ≡ t.next_request_id
        → Replied id r t t'
    not_open : Dict.get t.requests id ≡ none → t' ≡ t → Replied id r t t'

  -- What the first half of a round does with a batch, or, where none has anything to do, with none.
  pub data Handled (s : RawServer Value SendBack) : Turn Value SendBack → Type 0 where
    -- the next item of a batch is a notification, which is handed out
    told :
        (mid : BatchesState Value (Option ℕ)) (k : ℕ) (b : BatchState Value) (u : Option ℕ)
        (n : Notification Value) (s' : RawServer Value SendBack)
        → Chosen s.batches mid k b u
        → (Batch.next b).0 ≡ some (BatchInc.notification n)
        → Writes k (some ((Batch.next b).1, u)) mid s'.batches
        → s'.raw ≡ s.raw
        → Handled s (returned (RawServerEvent.notification n) s')
    -- it is a method call, which is handed out and found by its id
    called :
        (mid : BatchesState Value (Option ℕ)) (k : ℕ) (b : BatchState Value) (u : Option ℕ)
        (e : BatchElem Value) (x : BatchesElem Value (Option ℕ)) (s' : RawServer Value SendBack)
        → Chosen s.batches mid k b u
        → (Batch.next b).0 ≡ some (BatchInc.request e)
        → Writes k (some ((Batch.next b).1, u)) mid s'.batches
        → x ≡ record { batch_id = k; inner = e; user_param = u }
        → Batches.request_by_id (elem_id x) s'.batches ≡ some x
        → s'.raw ≡ s.raw
        → Handled s (returned (RawServerEvent.request x) s')
    -- a batch is ready with a response, is taken out, and its request gets that response
    finished :
        (mid : BatchesState Value (Option ℕ)) (k : ℕ) (b : BatchState Value) (id : ℕ)
        (r : Response Value) (s' : RawServer Value SendBack)
        → Chosen s.batches mid k b (some id)
        → Batch.is_ready_to_respond b ≡ true
        → Batch.into_response b ≡ ok (some r)
        → Writes k none mid s'.batches
        → Replied id r s.raw s'.raw
        → Handled s (again s')
    -- it is taken out, and its response is dropped, because its request is closed
    closed :
        (mid : BatchesState Value (Option ℕ)) (k : ℕ) (b : BatchState Value) (r : Response Value)
        (s' : RawServer Value SendBack)
        → Chosen s.batches mid k b none
        → Batch.is_ready_to_respond b ≡ true
        → Batch.into_response b ≡ ok (some r)
        → Writes k none mid s'.batches
        → s'.raw ≡ s.raw
        → Handled s (again s')
    -- every batch that is left waits for the server, and the transport is asked
    waits :
        (s' : RawServer Value SendBack)
        → Settled s.batches s'.batches
        → ((k : ℕ)
            → In k (Dict.keys s.batches.batches)
            → (b : BatchState Value) (u : Option ℕ) → entry s'.batches k ≡ some (b, u)
            → IsWaiting b)
        → s'.raw ≡ s.raw
        → Handled s (pull s')

  finish-Replied :
      (id : ℕ) (r : Response Value) (t : HttpTransportServer Value SendBack)
      → Replied id r t (Transport.finish id (some r) t).1
  unfolding Transport.finish finish_with
  finish-Replied id r t = elim (Option-cases (Dict.get t.requests id)) [
    | inl e ↦ rw (e, finish_with) (not_open e refl)
    | inr (c, e) ↦ rw (e, finish_with) (to_channel c e refl (get-remove t.requests id) refl)
  ]

  sent-Handled :
      (s : RawServer Value SendBack) (mid st : BatchesState Value (Option ℕ)) (k : ℕ)
      (b : BatchState Value) (u : Option ℕ) (r : Response Value)
      → Chosen s.batches mid k b u
      → Batch.is_ready_to_respond b ≡ true
      → Batch.into_response b ≡ ok (some r)
      → Writes k none mid st
      → Handled s (after_batches (some (some (BatchesEvent.ready_to_send r u), st)) s)
  unfolding after_batches
  sent-Handled s mid st k b (some id) r c f i w =
      finished mid k b id r (record { raw = (Transport.finish id (some r) s.raw).1; batches = st })
        c f i w (finish-Replied id r s.raw)
  sent-Handled s mid st k b none r c f i w =
      closed mid k b r (record s { batches = st }) c f i w refl

  Visited-Handled :
      (s : RawServer Value SendBack) (mid : BatchesState Value (Option ℕ)) (k : ℕ)
      (b : BatchState Value) (u : Option ℕ) (p : Polled Value (Option ℕ))
      (ev : BatchesEvent Value (Option ℕ)) (st : BatchesState Value (Option ℕ))
      → Chosen s.batches mid k b u
      → Visited k b u mid p
      → p ≡ some (some ev, st)
      → ((x : BatchesElem Value (Option ℕ)) (t : BatchesState Value (Option ℕ))
          → p ≡ some (some (BatchesEvent.request x), t)
          → Batches.request_by_id (elem_id x) t ≡ some x)
      → Handled s (after_batches p s)
  unfolding after_batches show_request
  Visited-Handled s mid k b u p ev st c (skipped t f n w e) h found = cc
  Visited-Handled s mid k b u p ev st c (dropped t f i w e) h found = cc
  Visited-Handled s mid k b u p ev st c (sent t r f i w e) h found =
      rw e (sent-Handled s mid t k b u r c f i w)
  Visited-Handled s mid k b u p ev st c (notified t n q w e) h found =
      rw e (told mid k b u n (record s { batches = t }) c q w refl)
  Visited-Handled s mid k b u p ev st c (asked t m q a w e) h found =
      let x : BatchesElem Value (Option ℕ) = record { batch_id = k; inner = m; user_param = u } in
      let here = found x t e in
      rw (e, here) (called mid k b u m x (record s { batches = t }) c q w refl here refl)

  -- When no batch has two entries, the first half of a round does not panic, and first takes out only
  -- batches that are answered and have nothing to send. Then it hands out the next item of a batch, a
  -- notification, or a method call that is found by its id, and the transport stays as it was; or it takes
  -- out a batch that is ready, whose response goes to the channel of its request, if that is open at the
  -- transport, and is dropped when the request is marked as closed; or every batch that is left waits for
  -- the server, and it goes on to the transport, which stays as it was.
  pub batch_turn-Handled :
      (s : RawServer Value SendBack)
      → Dict.Unique s.batches.batches
      → Handled s (batch_turn (Dict.keys s.batches.batches) s)
  unfolding batch_turn after_batches
  batch_turn-Handled s u =
      let ks = Dict.keys s.batches.batches in
      elim (keys-Outcome s.batches u) [
        | idle st t q e ↦ rw e (waits (record s { batches = st }) t q refl)
        | event mid k b v t i at w ev st e ↦
            Visited-Handled s mid k b v (Batches.next_event ks s.batches) ev st
              (record { settled = t; there = at }) w e
              (λ x t' h.
                next_event-request ks s.batches t' x (keys-Lists s.batches)
                  (Distinct-keys s.batches.batches u) h)
      ]
