-- ===== src/Batches/Views.antt =====
-- The table of batches (types/src/jsonrpc/wrapped/batches.rs) as what `request_by_id` shows of it: a map
-- from the ids of requests to those that wait for their answer.
use jsonrpsee.Base.{
  ℕ, zero, suc, List, [], ◌∷◌, ◌++◌, Option, none, some, Bool, true, ◌&&◌, if◌then◌else◌, ◌≡◌, inl,
  inr, refl, sym, ap, ◌∙◌, arith, nat_eq, ◌==◌, length, get_elem?, Bool-cases, Option-cases,
}
use jsonrpsee.Types.Request.{Notification}
use jsonrpsee.Batch
use jsonrpsee.Batch.{BatchState, BatchElem, BatchInc, ToYield}
use jsonrpsee.Batch.Elements.{next-requests, request_by_id-some}
use jsonrpsee.Batches.{BatchesState, BatchesElem, BatchesElemId, elem_id, request_by_id}
use jsonrpsee.Batches.Requests.{request_by_id-ap}
use jsonrpsee.Batches.Events.{entry, Settled}
use jsonrpsee.Batches.Visits.{Writes}
use jsonrpsee.Batches.Persistence.{ready-not-Waits, at_key}

get_elem?-snoc :
    {A : Type 0} (xs : List A) (x : A) (i : ℕ)
    → get_elem? (xs ++ x ∷ []) i ≡ (if length xs == i then some x else get_elem? xs i)
get_elem?-snoc [] x zero = refl
get_elem?-snoc [] x (suc i) = ground arith
get_elem?-snoc (y ∷ xs) x zero = ground arith
get_elem?-snoc (y ∷ xs) x (suc i) =
    get_elem?-snoc xs x i
    ∙ ground (arith, nat_eq.eqb_iff (length xs) i, nat_eq.eqb_iff (length (y ∷ xs)) (suc i))

module _ {Value : Type 0} where
  pub notification-requests :
      (b : BatchState Value) (n : Notification Value)
      → (Batch.next b).0 ≡ some (BatchInc.notification n)
      → (Batch.next b).1.requests ≡ b.requests
  unfolding Batch.next
  notification-requests b n h = ground arith

  same_requests :
      (b b' : BatchState Value) (i : ℕ)
      → b'.requests ≡ b.requests
      → Batch.request_by_id b' i ≡ Batch.request_by_id b i
  unfolding Batch.request_by_id
  same_requests b b' i h = rw h refl

  -- After `next` has returned a request, that request is found, and else what was found before.
  next-view :
      (b : BatchState Value) (e : BatchElem Value) (i : ℕ)
      → (Batch.next b).0 ≡ some (BatchInc.request e)
      → Batch.request_by_id (Batch.next b).1 i
        ≡ (if e.index == i then some e else Batch.request_by_id b i)
  unfolding Batch.request_by_id
  next-view b e i h =
      let (c, shape, grown) = next-requests b e h in
      elim (Bool-cases (length b.requests == i)) [
        | inl q ↦
            let p : length b.requests ≡ i = (nat_eq.eqb_iff (length b.requests) i).0 q in
            rw (grown, get_elem?-snoc b.requests (some c) i, shape, q, ← p) refl
        | inr q ↦ rw (grown, get_elem?-snoc b.requests (some c) i, shape, q) refl
      ]

  ready-unseen :
      (b : BatchState Value) (i : ℕ)
      → Batch.is_ready_to_respond b ≡ true
      → Batch.request_by_id b i ≡ none
  ready-unseen b i r = elim (Option-cases (Batch.request_by_id b i)) [
    | inl e ↦ e
    | inr (x, e) ↦ let (c, w, s) = request_by_id-some b i x e in absurd (ready-not-Waits b i c r w)
  ]

-- The two ids are the same.
abbrev pub names : BatchesElemId → BatchesElemId → Bool
names a b = (a.outer == b.outer) && (a.inner == b.inner)

module _ {Value T : Type 0} where
  -- What `request_by_id` finds in a batch of an entry
  abbrev seen : BatchesElemId → T → Option (BatchElem Value) → Option (BatchesElem Value T)
  seen id u none = none
  seen id u (some e) = some (record { batch_id = id.outer; inner = e; user_param = u })

  view-entry :
      (id : BatchesElemId) (b : BatchState Value) (u : T) (st : BatchesState Value T)
      → entry st id.outer ≡ some (b, u)
      → request_by_id id st ≡ seen id u (Batch.request_by_id b id.inner)
  unfolding request_by_id
  view-entry id b u st h = elim (Option-cases (Batch.request_by_id b id.inner)) [
    | inl e ↦ rw (h, e) refl
    | inr (x, e) ↦ rw (h, e) refl
  ]

  pub view-vacant :
      (id : BatchesElemId) (st : BatchesState Value T)
      → entry st id.outer ≡ none
      → request_by_id id st ≡ none
  unfolding request_by_id
  view-vacant id st h = rw h refl

  view-ready :
      (id : BatchesElemId) (b : BatchState Value) (u : T) (st : BatchesState Value T)
      → entry st id.outer ≡ some (b, u)
      → Batch.is_ready_to_respond b ≡ true
      → request_by_id id st ≡ none
  view-ready id b u st h r = view-entry id b u st h ∙ ap (seen id u) (ready-unseen b id.inner r)

  -- The two states show the same requests.
  abbrev pub Alike : BatchesState Value T → BatchesState Value T → Type 0
  Alike st st' = (id : BatchesElemId) → request_by_id id st' ≡ request_by_id id st

  pub Settled-Alike : (st st' : BatchesState Value T) → Settled st st' → Alike st st'
  Settled-Alike st st' (n, f) id = elim (f id.outer) [
    | inl e ↦ request_by_id-ap id st st' e
    | inr d ↦ view-vacant id st' d.gone ∙ sym (view-ready id d.old d.param st d.there d.ready)
  ]

  pub gone-Alike :
      (k : ℕ) (b : BatchState Value) (u : T) (st st' : BatchesState Value T)
      → entry st k ≡ some (b, u)
      → Batch.is_ready_to_respond b ≡ true
      → Writes k none st st'
      → Alike st st'
  gone-Alike k b u st st' h r (n, w) id = elim (Bool-cases (k == id.outer)) [
    | inr e ↦ request_by_id-ap id st st' (w id.outer ∙ rw e refl)
    | inl e ↦
        view-vacant id st' (w id.outer ∙ rw e refl)
        ∙ sym (view-ready id b u st (at_key k id.outer st (some (b, u)) e h) r)
  ]

  pub kept-Alike :
      (k : ℕ) (b b' : BatchState Value) (u : T) (st st' : BatchesState Value T)
      → entry st k ≡ some (b, u)
      → b'.requests ≡ b.requests
      → Writes k (some (b', u)) st st'
      → Alike st st'
  kept-Alike k b b' u st st' h q (n, w) id = elim (Bool-cases (k == id.outer)) [
    | inr e ↦ request_by_id-ap id st st' (w id.outer ∙ rw e refl)
    | inl e ↦
        view-entry id b' u st' (w id.outer ∙ rw e refl)
        ∙ ap (seen id u) (same_requests b b' id.inner q)
        ∙ sym (view-entry id b u st (at_key k id.outer st (some (b, u)) e h))
  ]

  -- The second state shows besides that request.
  abbrev pub Shown : BatchesElem Value T → BatchesState Value T → BatchesState Value T → Type 0
  Shown x st st' =
      (id : BatchesElemId)
      → request_by_id id st' ≡ (if names (elem_id x) id then some x else request_by_id id st)

  pub asked-Shown :
      (k : ℕ) (b : BatchState Value) (u : T) (e : BatchElem Value) (st st' : BatchesState Value T)
      → entry st k ≡ some (b, u)
      → (Batch.next b).0 ≡ some (BatchInc.request e)
      → Writes k (some ((Batch.next b).1, u)) st st'
      → Shown (record { batch_id = k; inner = e; user_param = u }) st st'
  asked-Shown k b u e st st' h a (n, w) id = elim (Bool-cases (k == id.outer)) [
    | inr q ↦ rw q (request_by_id-ap id st st' (w id.outer ∙ rw q refl))
    | inl q ↦
        let before = view-entry id b u st (at_key k id.outer st (some (b, u)) q h) in
        let after =
          view-entry id (Batch.next b).1 u st' (w id.outer ∙ rw q refl)
          ∙ ap (seen id u) (next-view b e id.inner a) in
        let p : k ≡ id.outer = (nat_eq.eqb_iff k id.outer).0 q in
        elim (Bool-cases (e.index == id.inner)) [
          | inl i ↦
              let after' = rw i at after in
              rw (q, i)
                (after'
                  ∙ ap (λ (o : ℕ). some (record { batch_id = o; inner = e; user_param = u }))
                      (sym p))
          | inr i ↦ let after' = rw i at after in rw (q, i) (after' ∙ sym before)
        ]
  ]

  -- A batch of which nothing has been handed out shows no request.
  pub view-empty :
      (id : BatchesElemId) (b : BatchState Value) (u : T) (st : BatchesState Value T)
      → entry st id.outer ≡ some (b, u)
      → b.requests ≡ []
      → request_by_id id st ≡ none
  unfolding request_by_id Batch.request_by_id
  view-empty id b u st h e = rw (h, e) refl
