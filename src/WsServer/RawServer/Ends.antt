-- ===== src/WsServer/RawServer/Ends.antt =====
-- The loop of `next_event` of ws-server/src/raw/core.rs ends: on enough fuel it returns an event or
-- waits for the transport, and does not panic.
use jsonrpsee.Base.{
  ℕ, zero, suc, ◌+◌, ◌*◌, ◌≤◌, ◌<◌, List, [], ◌∷◌, Option, none, some, ◌≡◌, refl, sym, ap, ◌∙◌, Eq,
  nat_eq, arith, Option-cases, Bool-cases, inl, inr, length,
}
use jsonrpsee.Base.Dict
use jsonrpsee.Base.Dict.{Dict}
use jsonrpsee.Base.Dict.Laws.{map_values-Unique}
use jsonrpsee.Types.Response.{Response}
use jsonrpsee.Types.Request.{Request}
use jsonrpsee.Batch.{BatchState}
use jsonrpsee.Batches
use jsonrpsee.Batches.{BatchesState, BatchesEvent, u64_mod}
use jsonrpsee.Batches.Events.{Outcome, idle}
use jsonrpsee.Batches.Visits.{Visited, skipped, dropped, sent, notified, asked}
use jsonrpsee.Batches.Sizes.{Shrinks, next_event-Shrinks, inject-size}
use jsonrpsee.WsServer.Transport.{WsTransportServer, TransportServerEvent, Event, next_request}
use jsonrpsee.Batches.Keys.{keys-Outcome}
use jsonrpsee.WsServer.Transport.Reports.{load, Reports, next_request-Reports}
use jsonrpsee.WsServer.Transport.Delivery.{finish-delivery}
use jsonrpsee.Batches.{elem_id}
use jsonrpsee.WsServer.RawServer.{
  RawServer, Turn, returned, again, pull, panic, batch_turn, after_batches, send_ready,
  show_request, raw_turn, injected, forget,
}
use jsonrpsee.WsServer.RawServer.Loop.{
  Polled, event, waiting, panicked, out_of_fuel, next_event, batch_half, transport_half, raw_half,
}
use jsonrpsee.WsServer.RawServer.Rounds.{Alive, batch_turn-keys-Alive, raw_turn-Alive}

length-map_values :
    {K V W : Type 0} (f : V → W) (d : Dict K V) → length (Dict.map_values f d) ≡ length d
unfolding Dict.map_values
length-map_values f [] = refl
length-map_values f ((k, v) ∷ d) = rw (length-map_values f d) refl

abbrev forget_entry :
    {Value : Type 0} → ℕ → BatchState Value × Option ℕ → BatchState Value × Option ℕ
forget_entry id entry = (entry.0, forget id entry.1)

module _ {Value T : Type 0} where
  Visited-id :
      (id : ℕ) (b : BatchState Value) (u : T) (st : BatchesState Value T)
      (r : Batches.Polled Value T) (o : Option (BatchesEvent Value T)) (st' : BatchesState Value T)
      → Visited id b u st r
      → r ≡ some (o, st')
      → st'.next_batch_id ≡ st.next_batch_id
  Visited-id id b u st r o st' (skipped end _ _ w e) h =
      let same : end ≡ st' = cc in
      ap (λ (s : BatchesState Value T). s.next_batch_id) (sym same) ∙ w.0
  Visited-id id b u st r o st' (dropped end _ _ w e) h =
      let same : end ≡ st' = cc in
      ap (λ (s : BatchesState Value T). s.next_batch_id) (sym same) ∙ w.0
  Visited-id id b u st r o st' (sent end _ _ _ w e) h =
      let same : end ≡ st' = cc in
      ap (λ (s : BatchesState Value T). s.next_batch_id) (sym same) ∙ w.0
  Visited-id id b u st r o st' (notified end _ _ w e) h =
      let same : end ≡ st' = cc in
      ap (λ (s : BatchesState Value T). s.next_batch_id) (sym same) ∙ w.0
  Visited-id id b u st r o st' (asked end _ _ _ w e) h =
      let same : end ≡ st' = cc in
      ap (λ (s : BatchesState Value T). s.next_batch_id) (sym same) ∙ w.0

  Outcome-id :
      (ks : List ℕ) (st : BatchesState Value T) (r : Batches.Polled Value T)
      (o : Option (BatchesEvent Value T)) (st' : BatchesState Value T)
      → Outcome ks st r
      → r ≡ some (o, st')
      → st'.next_batch_id ≡ st.next_batch_id
  Outcome-id ks st r o st' (idle end t q e) h =
      let same : end ≡ st' = cc in
      ap (λ (s : BatchesState Value T). s.next_batch_id) (sym same) ∙ t.0
  Outcome-id ks st r o st' (Outcome.event mid id b u t i at v ev end e) h =
      Visited-id id b u mid r o st' v h ∙ t.0

module _ {Value Key : Type 0} ⦃e : Eq Key⦄ where
  -- How much the loop has yet to do: each event to come makes at most one batch, and each batch at most
  -- one response.
  abbrev pub work : List (Event Value) → RawServer Value Key → ℕ
  work evs s = length s.batches.batches + 2 * (length s.raw.pending_events + load evs)

  -- The ids of the batches are distinct numbers below 2^64, and there is room for the batches to come.
  pub record Fit (evs : List (Event Value)) (s : RawServer Value Key) : Type 0 where
    pub unique : Dict.Unique s.batches.batches
    pub next_id : s.batches.next_batch_id < u64_mod
    pub room : work evs s < u64_mod

  -- The first half of a round leaves less to do, or goes on with no more batches.
  abbrev pub BatchHalf : RawServer Value Key → Turn Value Key → Type 0
  BatchHalf s (returned ev s') = Unit
  BatchHalf s (again s') =
      (length s'.batches.batches < length s.batches.batches)
      × Dict.Unique s'.batches.batches
      × (s'.batches.next_batch_id ≡ s.batches.next_batch_id)
      × (s'.raw.pending_events ≡ s.raw.pending_events)
  BatchHalf s (pull s') =
      (length s'.batches.batches ≤ length s.batches.batches)
      × Dict.Unique s'.batches.batches
      × (s'.batches.next_batch_id ≡ s.batches.next_batch_id)
      × (s'.raw ≡ s.raw)
  BatchHalf s panic = ⊥

  send_ready-BatchHalf :
      (s : RawServer Value Key) (r : Response Value) (id : ℕ) (b : BatchesState Value (Option ℕ))
      → length b.batches < length s.batches.batches
      → Dict.Unique b.batches
      → b.next_batch_id ≡ s.batches.next_batch_id
      → BatchHalf s (send_ready r id (record s { batches = b }))
  unfolding send_ready
  send_ready-BatchHalf s r id b l u n = elim (Bool-cases (Dict.contains s.num_subscriptions id)) [
    | inl c ↦ rw c tt
    | inr c ↦ rw c (l, u, n, (finish-delivery id (some r) s.raw).2)
  ]

  after_batches-BatchHalf :
      (s : RawServer Value Key) (p : Batches.Polled Value (Option ℕ))
      → Alive (after_batches p s)
      → Shrinks (length s.batches.batches) p
      → ((o : Option (BatchesEvent Value (Option ℕ))) (b : BatchesState Value (Option ℕ))
          → p ≡ some (o, b)
          → b.next_batch_id ≡ s.batches.next_batch_id)
      → BatchHalf s (after_batches p s)
  unfolding after_batches show_request
  after_batches-BatchHalf s none alive h n = elim alive [ ]
  after_batches-BatchHalf s (some (none, b)) alive h n = (omega arith, h.1, n none b refl, refl)
  after_batches-BatchHalf s (some (some (BatchesEvent.notification m u), b)) alive h n = tt
  after_batches-BatchHalf s (some (some (BatchesEvent.request x), b)) alive h n =
      elim (Option-cases (Batches.request_by_id (elem_id x) b)) [
        | inl q ↦ elim (rw q at alive) [ ]
        | inr (y, q) ↦ rw q tt
      ]
  after_batches-BatchHalf s (some (some (BatchesEvent.ready_to_send r (some id)), b)) alive h n =
      send_ready-BatchHalf s r id b (omega arith) h.1 (n _ b refl)
  after_batches-BatchHalf s (some (some (BatchesEvent.ready_to_send r none), b)) alive h n =
      (omega arith, h.1, n _ b refl, refl)

  batch_turn-BatchHalf :
      (s : RawServer Value Key)
      → Dict.Unique s.batches.batches
      → BatchHalf s (batch_turn (Dict.keys s.batches.batches) s)
  unfolding batch_turn
  batch_turn-BatchHalf s u =
      let ks = Dict.keys s.batches.batches in
      after_batches-BatchHalf s (Batches.next_event ks s.batches) (batch_turn-keys-Alive s u)
        (next_event-Shrinks ks s.batches u)
        (λ o b h. Outcome-id ks s.batches _ o b (keys-Outcome s.batches u) h)

  -- The second half of a round makes at most one batch.
  abbrev pub RawHalf : RawServer Value Key → Turn Value Key → Type 0
  RawHalf s (returned ev s') = Unit
  RawHalf s (again s') =
      (length s'.batches.batches ≤ suc (length s.batches.batches))
      × Dict.Unique s'.batches.batches
      × (s'.batches.next_batch_id < u64_mod)
      × (s'.raw ≡ s.raw)
  RawHalf s (pull s') = ⊥
  RawHalf s panic = ⊥

  injected-RawHalf :
      (s : RawServer Value Key) (rq : Request Value) (id : ℕ)
      (o : Option (BatchesState Value (Option ℕ)))
      → Batches.inject rq (some id) s.batches ≡ o
      → Dict.Unique s.batches.batches
      → Alive (injected o s)
      → RawHalf s (injected o s)
  unfolding injected
  injected-RawHalf s rq id none h u alive = alive
  injected-RawHalf s rq id (some b) h u alive =
      let (l, q, n) = inject-size rq (some id) s.batches b u h in (l, q, n, refl)

  raw_turn-RawHalf :
      (ev : TransportServerEvent Value) (s : RawServer Value Key)
      → Dict.Unique s.batches.batches
      → s.batches.next_batch_id < u64_mod
      → length s.batches.batches < u64_mod
      → RawHalf s (raw_turn ev s)
  unfolding raw_turn Batches.map_params
  raw_turn-RawHalf (TransportServerEvent.request id rq) s u n l =
      injected-RawHalf s rq id (Batches.inject rq (some id) s.batches) refl u
        (raw_turn-Alive (TransportServerEvent.request id rq) s n l)
  raw_turn-RawHalf (TransportServerEvent.closed id) s u n l =
      elim (Bool-cases (Dict.contains s.num_subscriptions id)) [
        | inl c ↦ rw c tt
        | inr c ↦ rw c (
          rw (length-map_values (forget_entry id) s.batches.batches) (omega arith),
          map_values-Unique (forget_entry id) s.batches.batches u,
          n,
          refl,
        )
      ]

  -- The loop stops with an event, or waits for the transport.
  abbrev pub Stops : Polled Value Key → Type 0
  Stops (event ev s evs) = Unit
  Stops (waiting s) = Unit
  Stops panicked = ⊥
  Stops out_of_fuel = ⊥

  -- The rest of the loop stops when there is less than `n` to do.
  abbrev pub StopsBelow : ℕ → (List (Event Value) → RawServer Value Key → Polled Value Key) → Type 0
  StopsBelow n f =
      (evs : List (Event Value)) (s : RawServer Value Key)
      → Fit evs s
      → work evs s < n
      → Stops (f evs s)

  raw_half-Stops :
      (n : ℕ) (t : Turn Value Key) (rest : List (Event Value)) (s : RawServer Value Key)
      (f : List (Event Value) → RawServer Value Key → Polled Value Key)
      → RawHalf s t
      → suc (work rest s) < n
      → n ≤ u64_mod
      → StopsBelow n f
      → Stops (raw_half t rest f)
  raw_half-Stops n (returned ev s') rest s f h w m go = tt
  raw_half-Stops n (again s') rest s f h w m go =
      let (l, u, i, raw) = h in
      let p : length s'.raw.pending_events ≡ length s.raw.pending_events =
        ap (λ (t : WsTransportServer Value). length t.pending_events) raw in
      go rest s' (record { unique = u; next_id = i; room = omega arith }) (omega arith)
  raw_half-Stops n (pull s') rest s f h w m go = elim h [ ]
  raw_half-Stops n panic rest s f h w m go = h

  transport_half-Stops :
      (n k : ℕ)
      (r : Option (TransportServerEvent Value) × WsTransportServer Value × List (Event Value))
      (s : RawServer Value Key) (f : List (Event Value) → RawServer Value Key → Polled Value Key)
      → Reports k r
      → Dict.Unique s.batches.batches
      → s.batches.next_batch_id < u64_mod
      → length s.batches.batches + 2 * k ≤ n
      → n ≤ u64_mod
      → StopsBelow n f
      → Stops (transport_half r s f)
  unfolding transport_half
  transport_half-Stops n k (none, t, rest) s f h u i w m go = tt
  transport_half-Stops n k (some ev, t, rest) s f h u i w m go =
      raw_half-Stops n (raw_turn ev (record s { raw = t })) rest (record s { raw = t }) f
        (raw_turn-RawHalf ev (record s { raw = t }) u i (omega arith)) (omega arith) m go

  batch_half-Stops :
      (t : Turn Value Key) (evs : List (Event Value)) (s : RawServer Value Key)
      (f : List (Event Value) → RawServer Value Key → Polled Value Key)
      → BatchHalf s t
      → Fit evs s
      → StopsBelow (work evs s) f
      → Stops (batch_half t evs f)
  unfolding batch_half
  batch_half-Stops (returned ev s') evs s f h fit go = tt
  batch_half-Stops (again s') evs s f (l, u, i, p) fit go =
      let q : length s'.raw.pending_events ≡ length s.raw.pending_events = ap (λ xs. length xs) p in
      let k = fit.next_id in
      let room = fit.room in
      go evs s' (record { unique = u; next_id = rw i k; room = omega arith }) (omega arith)
  batch_half-Stops (pull s') evs s f (l, u, i, raw) fit go =
      let q : length s'.raw.pending_events ≡ length s.raw.pending_events =
        ap (λ (t : WsTransportServer Value). length t.pending_events) raw in
      let k = fit.next_id in
      let room = fit.room in
      transport_half-Stops (work evs s) (length s'.raw.pending_events + load evs)
        (next_request evs s'.raw) s' f (next_request-Reports evs s'.raw) u (rw i k) (omega arith)
        (omega arith) go
  batch_half-Stops panic evs s f h fit go = h

  -- On more fuel than there is work the loop stops: it returns an event or waits for the transport. It
  -- does not panic. The ids of the batches are distinct and below 2^64, with room for those to come.
  pub next_event-Stops :
      (fuel : ℕ) (evs : List (Event Value)) (s : RawServer Value Key)
      → Fit evs s
      → work evs s < fuel
      → Stops (next_event fuel evs s)
  unfolding next_event
  next_event-Stops zero evs s fit w = absurd (omega arith)
  next_event-Stops (suc fuel) evs s fit w =
      batch_half-Stops (batch_turn (Dict.keys s.batches.batches) s) evs s
        (λ evs' s'. next_event fuel evs' s') (batch_turn-BatchHalf s fit.unique) fit
        (λ evs' s' fit' less. next_event-Stops fuel evs' s' fit' (omega arith))
