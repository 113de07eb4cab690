-- ===== src/Batches/Events.antt =====
-- The loop of `next_event` (types/src/jsonrpc/wrapped/batches.rs), for every order in which the
-- table iterates over its keys.
use jsonrpsee.Base.{
  ℕ, List, [], ◌∷◌, Option, none, some, true, false, ok, ◌≡◌, ◌≢◌, ◌⊎◌, inl, inr, refl, sym, ap,
  ◌∙◌, nat_eq, ◌==◌, Bool-cases, beq_refl, beq_ne, nat_beq_iff,
}
use jsonrpsee.Base.Dict
use jsonrpsee.Batch
use jsonrpsee.Batch.{BatchState}
use jsonrpsee.Batches.{
  BatchesState, BatchesEvent, Polled, visit, next_event, notification, request, ready_to_send,
}
use jsonrpsee.Batches.Visits.{
  Writes, Visited, skipped, dropped, sent, notified, asked, visit-Visited, next-none,
}

abbrev pub In : ℕ → List ℕ → Type 0
In j [] = ⊥
In j (k ∷ ks) = (j ≡ k) ⊎ In j ks

-- No key stands twice in the list.
abbrev pub Distinct : List ℕ → Type 0
Distinct [] = Unit
Distinct (k ∷ ks) = ((j : ℕ) → In j ks → k ≢ j) × Distinct ks

-- A batch waits for the server: all its calls are handed out, and one has no answer.
abbrev pub IsWaiting : {Value : Type 0} → BatchState Value → Type 0
IsWaiting b = (Batch.is_ready_to_respond b ≡ false) × ((Batch.next b).0 ≡ none)

module _ {Value T : Type 0} where
  -- the entry of a batch, by its id
  abbrev pub entry : BatchesState Value T → ℕ → Option (BatchState Value × T)
  entry st j = Dict.get st.batches j

  -- The list holds keys of the table only.
  abbrev pub Lists : List ℕ → BatchesState Value T → Type 0
  Lists ks st = (j : ℕ) → In j ks → (b : BatchState Value) × (u : T) × (entry st j ≡ some (b, u))

  -- A batch with nothing to send, which is all answered, is gone.
  pub record Dropped (st st' : BatchesState Value T) (j : ℕ) : Type 0 where
    pub old : BatchState Value
    pub param : T
    pub there : entry st j ≡ some (old, param)
    pub ready : Batch.is_ready_to_respond old ≡ true
    pub silent : Batch.into_response old ≡ ok none
    pub gone : entry st' j ≡ none

  -- Each entry is as it was, or was dropped.
  abbrev pub Settled : BatchesState Value T → BatchesState Value T → Type 0
  Settled st st' =
      (st'.next_batch_id ≡ st.next_batch_id)
      × ((j : ℕ) → (entry st' j ≡ entry st j) ⊎ Dropped st st' j)

  -- What a call of `next_event` does: either it finds nothing to do, and each batch waits, or one
  -- round on one batch has made an event. Before that it has dropped silent batches only.
  pub data Outcome (ks : List ℕ) (st : BatchesState Value T) (r : Polled Value T) : Type 0 where
    idle :
        (st' : BatchesState Value T)
        → Settled st st'
        → ((j : ℕ)
            → In j ks
            → (b : BatchState Value) (u : T) → entry st' j ≡ some (b, u)
            → IsWaiting b)
        → r ≡ some (none, st')
        → Outcome ks st r
    event :
        (mid : BatchesState Value T) (id : ℕ) (b : BatchState Value) (u : T)
        → Settled st mid
        → In id ks
        → entry mid id ≡ some (b, u)
        → Visited id b u mid r
        → (ev : BatchesEvent Value T) (st' : BatchesState Value T) → r ≡ some (some ev, st')
        → Outcome ks st r

  Settled-refl : (st : BatchesState Value T) → Settled st st
  Settled-refl st = (refl, λ j. inl refl)

  Settled-trans : (a b c : BatchesState Value T) → Settled a b → Settled b c → Settled a c
  Settled-trans a b c (n, f) (m, g) = (m ∙ n, λ j. go j (f j) (g j))
    where
      go :
          (j : ℕ)
          → (entry b j ≡ entry a j) ⊎ Dropped a b j
          → (entry c j ≡ entry b j) ⊎ Dropped b c j
          → (entry c j ≡ entry a j) ⊎ Dropped a c j
      go j (inl p) (inl q) = inl (q ∙ p)
      go j (inl p) (inr d) = inr (record {
        old = d.old;
        param = d.param;
        there = sym p ∙ d.there;
        ready = d.ready;
        silent = d.silent;
        gone = d.gone;
      })
      go j (inr d) (inl q) = inr (record {
        old = d.old;
        param = d.param;
        there = d.there;
        ready = d.ready;
        silent = d.silent;
        gone = q ∙ d.gone;
      })
      go j (inr d) (inr d') = cc (d.gone, d'.there)

  skip-Settled :
      (id : ℕ) (b : BatchState Value) (u : T) (st st' : BatchesState Value T)
      → entry st id ≡ some (b, u)
      → (Batch.next b).1 ≡ b
      → Writes id (some ((Batch.next b).1, u)) st st'
      → Settled st st'
  skip-Settled id b u st st' h same (n, w) = (n, λ j. inl (go j (Bool-cases (id == j))))
    where
      go : (j : ℕ) → ((id == j) ≡ true) ⊎ ((id == j) ≡ false) → entry st' j ≡ entry st j
      go j (inl e) =
          w j ∙ rw (e, same) (sym h ∙ ap (λ (k : ℕ). entry st k) ((nat_beq_iff id j).0 e))
      go j (inr e) = w j ∙ rw e

  drop-Settled :
      (id : ℕ) (b : BatchState Value) (u : T) (st st' : BatchesState Value T)
      → entry st id ≡ some (b, u)
      → Batch.is_ready_to_respond b ≡ true
      → Batch.into_response b ≡ ok none
      → Writes id none st st'
      → Settled st st'
  drop-Settled id b u st st' h r s (n, w) = (n, λ j. go j (Bool-cases (id == j)))
    where
      go :
          (j : ℕ)
          → ((id == j) ≡ true) ⊎ ((id == j) ≡ false)
          → (entry st' j ≡ entry st j) ⊎ Dropped st st' j
      go j (inl e) = inr (record {
        old = b;
        param = u;
        there = ap (λ (k : ℕ). entry st k) (sym ((nat_beq_iff id j).0 e)) ∙ h;
        ready = r;
        silent = s;
        gone = w j ∙ rw e;
      })
      go j (inr e) = inl (w j ∙ rw e)

  resume :
      (k : ℕ) (ks : List ℕ) (st st' : BatchesState Value T) (r : Polled Value T)
      → Settled st st'
      → ((b : BatchState Value) (u : T) → entry st' k ≡ some (b, u) → IsWaiting b)
      → Outcome ks st' r
      → Outcome (k ∷ ks) st r
  resume k ks st st' r s q (idle end t waits e) = idle end (Settled-trans st st' end s t) all e
    where
      at_k :
          (entry end k ≡ entry st' k) ⊎ Dropped st' end k
          → (b : BatchState Value) (u : T) → entry end k ≡ some (b, u)
          → IsWaiting b
      at_k (inl p) b u h = q b u (sym p ∙ h)
      at_k (inr d) b u h = cc (d.gone)

      all :
          (j : ℕ)
          → In j (k ∷ ks)
          → (b : BatchState Value) (u : T) → entry end j ≡ some (b, u)
          → IsWaiting b
      all j (inl p) b u h = at_k (t.1 k) b u (ap (λ (i : ℕ). entry end i) (sym p) ∙ h)
      all j (inr i) b u h = waits j i b u h
  resume k ks st st' r s q (event mid id b u t i h v ev end e) =
      event mid id b u (Settled-trans st st' mid s t) (inr i) h v ev end e

  Lists-Writes :
      (k : ℕ) (ks : List ℕ) (o : Option (BatchState Value × T)) (st st' : BatchesState Value T)
      → ((j : ℕ) → In j ks → k ≢ j)
      → Writes k o st st'
      → Lists (k ∷ ks) st
      → Lists ks st'
  Lists-Writes k ks o st st' apart (n, w) l j i =
      let (b, u, h) = l j (inr i) in (b, u, w j ∙ rw (beq_ne k j (apart j i)) h)

  entry-Writes :
      (k : ℕ) (o : Option (BatchState Value × T)) (st st' : BatchesState Value T)
      → Writes k o st st'
      → entry st' k ≡ o
  entry-Writes k o st st' (n, w) = w k ∙ rw (beq_refl k)

  skip-IsWaiting :
      (k : ℕ) (b : BatchState Value) (u : T) (st st' : BatchesState Value T) (b' : BatchState Value)
      (u' : T)
      → Batch.is_ready_to_respond b ≡ false
      → (Batch.next b).0 ≡ none
      → Writes k (some ((Batch.next b).1, u)) st st'
      → entry st' k ≡ some (b', u')
      → IsWaiting b'
  skip-IsWaiting k b u st st' b' u' r n w h =
      let same : b' ≡ b = cc (entry-Writes k _ st st' w, h, (next-none b n).0) in rw same (r, n)

  round :
      (k : ℕ) (ks : List ℕ) (st : BatchesState Value T) (b : BatchState Value) (u : T)
      → entry st k ≡ some (b, u)
      → ((j : ℕ) → In j ks → k ≢ j)
      → Lists (k ∷ ks) st
      → ((st' : BatchesState Value T) → Lists ks st' → Outcome ks st' (next_event ks st'))
      → Visited k b u st (visit k st)
      → Outcome (k ∷ ks) st (next_event (k ∷ ks) st)
  unfolding next_event
  round k ks st b u h apart l ih (skipped st' r n w e) =
      rw (e, next_event)
        (resume k ks st st' _ (skip-Settled k b u st st' h (next-none b n).0 w)
          (λ b' u' h'. skip-IsWaiting k b u st st' b' u' r n w h')
          (ih st' (Lists-Writes k ks _ st st' apart w l)))
  round k ks st b u h apart l ih (dropped st' r i w e) =
      rw (e, next_event)
        (resume k ks st st' _ (drop-Settled k b u st st' h r i w)
          (λ b' u' h'. cc (entry-Writes k none st st' w, h'))
          (ih st' (Lists-Writes k ks _ st st' apart w l)))
  round k ks st b u h apart l ih (sent st' m r i w e) =
      event st k b u (Settled-refl st) (inl refl) h (sent st' m r i w (rw (e, next_event)))
        (ready_to_send m u) st' (rw (e, next_event))
  round k ks st b u h apart l ih (notified st' m n w e) =
      event st k b u (Settled-refl st) (inl refl) h (notified st' m n w (rw (e, next_event)))
        (notification m u) st' (rw (e, next_event))
  round k ks st b u h apart l ih (asked st' m n a w e) =
      event st k b u (Settled-refl st) (inl refl) h (asked st' m n a w (rw (e, next_event)))
        (request (record { batch_id = k; inner = m; user_param = u })) st' (rw (e, next_event))

  -- For every order of the keys, `next_event` does not panic, and is described by `Outcome`.
  pub next_event-Outcome :
      (ks : List ℕ) (st : BatchesState Value T)
      → Lists ks st
      → Distinct ks
      → Outcome ks st (next_event ks st)
  unfolding next_event
  next_event-Outcome [] st l d = idle st (Settled-refl st) (λ j i. elim i [ ]) refl
  next_event-Outcome (k ∷ ks) st l d =
      let (b, u, h) = l k (inl refl) in
      round k ks st b u h d.0 l (λ st' l'. next_event-Outcome ks st' l' d.1)
        (visit-Visited k b u st h)
