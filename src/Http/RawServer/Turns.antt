-- ===== src/Http/RawServer/Turns.antt =====
-- Which state of the batches a turn of the loop in http-server/src/raw/core.rs leaves.
use jsonrpsee.Base.{
  ℕ, List, Option, none, some, Result, ◌≡◌, refl, arith, Option-cases, inl, inr, ap,
}
use jsonrpsee.Types.Errors.{Error}
use jsonrpsee.Types.Request.{Request}
use jsonrpsee.Batches
use jsonrpsee.Batches.{BatchesState, BatchesEvent, BatchesElem, BatchesElemId, Polled, elem_id}
use jsonrpsee.Batches.Requests.{request_by_id-Waits}
use jsonrpsee.Http.Transport.{TransportServerEvent}
use jsonrpsee.Http.RawServer.{
  RawServer, RawServerEvent, Turn, returned, again, pull, panic, batch_turn, after_batches,
  show_request, raw_turn, injected, respond, respond_with,
}

-- A request is found under its own id.
pub own_id :
    {Value : Type 0} (id : BatchesElemId) (st : BatchesState Value (Option ℕ))
    (x : BatchesElem Value (Option ℕ))
    → Batches.request_by_id id st ≡ some x
    → elem_id x ≡ id
own_id id st x h = let (b, u, c, at, w, shape) = request_by_id-Waits id st x h in ap elem_id shape

module _ {Value SendBack : Type 0} where
  -- How a turn is made from what the batches were polled for.
  abbrev pub Made : Polled Value (Option ℕ) → Turn Value SendBack → Type 0
  Made p (again s) = (o : Option (BatchesEvent Value (Option ℕ))) × (p ≡ some (o, s.batches))
  Made p (pull s) = (o : Option (BatchesEvent Value (Option ℕ))) × (p ≡ some (o, s.batches))
  Made p (returned (RawServerEvent.notification n) s) =
      (o : Option (BatchesEvent Value (Option ℕ))) × (p ≡ some (o, s.batches))
  Made p (returned (RawServerEvent.request y) s) =
      (x : BatchesElem Value (Option ℕ)) × (p ≡ some (some (BatchesEvent.request x), s.batches))
      × (Batches.request_by_id (elem_id x) s.batches ≡ some y)
      × (elem_id y ≡ elem_id x)
  Made p panic = Unit

  after_batches-Made :
      (p : Polled Value (Option ℕ)) (s : RawServer Value SendBack) → Made p (after_batches p s)
  unfolding after_batches show_request
  after_batches-Made none s = tt
  after_batches-Made (some (none, b)) s = (none, refl)
  after_batches-Made (some (some (BatchesEvent.notification n u), b)) s = (_, refl)
  after_batches-Made (some (some (BatchesEvent.request x), b)) s =
      elim (Option-cases (Batches.request_by_id (elem_id x) b)) [
        | inl e ↦ rw e tt
        | inr (y, e) ↦ rw e (x, refl, e, own_id (elem_id x) b y e)
      ]
  after_batches-Made (some (some (BatchesEvent.ready_to_send r (some id)), b)) s = (_, refl)
  after_batches-Made (some (some (BatchesEvent.ready_to_send r none), b)) s = (_, refl)

  pub batch_turn-Made :
      (ks : List ℕ) (s : RawServer Value SendBack)
      → Made (Batches.next_event ks s.batches) (batch_turn ks s)
  unfolding batch_turn
  batch_turn-Made ks s = after_batches-Made (Batches.next_event ks s.batches) s

  injected-again :
      (o : Option (BatchesState Value (Option ℕ))) (s s' : RawServer Value SendBack)
      → injected o s ≡ again s'
      → o ≡ some s'.batches
  unfolding injected
  injected-again none s s' h = cc
  injected-again (some b) s s' h = ground (arith, h)

  -- A request that arrives is injected into the batches.
  pub raw_turn-inject :
      (n : ℕ) (rq : Request Value) (s s' : RawServer Value SendBack)
      → raw_turn (TransportServerEvent.request n rq) s ≡ again s'
      → Batches.inject rq (some n) s.batches ≡ some s'.batches
  unfolding raw_turn
  raw_turn-inject n rq s s' h = injected-again (Batches.inject rq (some n) s.batches) s s' h

  respond_with-some :
      (o : Option (BatchesState Value (Option ℕ))) (s s' : RawServer Value SendBack)
      → respond_with o s ≡ some s'
      → o ≡ some s'.batches
  unfolding respond_with
  respond_with-some none s s' h = cc
  respond_with-some (some b) s s' h = ground (arith, h)

  -- A response is put into the batches.
  pub respond-set_response :
      (id : BatchesElemId) (r : Result Value (Error Value)) (s s' : RawServer Value SendBack)
      → respond id r s ≡ some s'
      → Batches.set_response id r s.batches ≡ some s'.batches
  unfolding respond
  respond-set_response id r s s' h = respond_with-some (Batches.set_response id r s.batches) s s' h
