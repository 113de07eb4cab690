-- ===== src/Batches/Persistence.antt =====
-- A request that is handed out stays where it is until it is answered
-- (types/src/jsonrpc/wrapped/batches.rs).
use jsonrpsee.Base.{
  ℕ, zero, suc, List, [], ◌∷◌, Option, none, some, true, ◌≡◌, ◌≢◌, inl, inr, refl, ◌∙◌, subst,
  arith, nat_eq, ◌==◌, length, get_elem?, all_of, is_none, Bool-cases, beq_sound,
}
use jsonrpsee.Types.Request.{MethodCall}
use jsonrpsee.Batch
use jsonrpsee.Batch.{BatchState, BatchElem, BatchInc}
use jsonrpsee.Batch.Elements.{Waits, next-Waits}
use jsonrpsee.Batches.{
  BatchesState, BatchesEvent, BatchesElemId, Polled, request, notification, ready_to_send,
  next_event,
}
use jsonrpsee.Batches.Events.{
  entry, Lists, Distinct, Settled, Outcome, idle, event, next_event-Outcome,
}
use jsonrpsee.Batches.Visits.{Writes, Visited, skipped, dropped, sent, notified, asked}

no_wait_in :
    {Value : Type 0} (rs : List (Option (MethodCall Value))) (i : ℕ) (c : MethodCall Value)
    → all_of is_none rs ≡ true
    → get_elem? rs i ≢ some (some c)
no_wait_in [] i c h e = cc
no_wait_in (none ∷ rs) zero c h e = cc
no_wait_in (none ∷ rs) (suc i) c h e = no_wait_in rs i c h e
no_wait_in (some d ∷ rs) i c h e = cc

-- In a batch that is ready to respond no call waits.
pub ready-not-Waits :
    {Value : Type 0} (b : BatchState Value) (i : ℕ) (c : MethodCall Value)
    → Batch.is_ready_to_respond b ≡ true
    → ¬ Waits b i c
unfolding Batch.is_ready_to_respond
ready-not-Waits b i c h w = no_wait_in b.requests i c (ground arith) w

pub not-last : {A : Type 0} (xs : List A) (i : ℕ) (x : A) → get_elem? xs i ≡ some x → i ≢ length xs
not-last [] i x h e = cc
not-last (y ∷ xs) zero x h e = omega arith
not-last (y ∷ xs) (suc i) x h e = not-last xs i x h (omega arith)

module _ {Value T : Type 0} where
  -- The call of an id waits for its answer.
  pub record Pending (id : BatchesElemId) (st : BatchesState Value T) : Type 0 where
    pub state : BatchState Value
    pub param : T
    pub method_call : MethodCall Value
    pub there : entry st id.outer ≡ some (state, param)
    pub waits : Waits state id.inner method_call

  pub moved :
      (id : BatchesElemId) (st st' : BatchesState Value T)
      → entry st' id.outer ≡ entry st id.outer
      → Pending id st
      → Pending id st'
  moved id st st' e p = record {
    state = p.state;
    param = p.param;
    method_call = p.method_call;
    there = e ∙ p.there;
    waits = p.waits;
  }

  -- The batch of the id, as an equation of its entry gives it.
  pub Waits-in :
      (id : BatchesElemId) (b : BatchState Value) (u : T) (st : BatchesState Value T)
      (p : Pending id st)
      → entry st id.outer ≡ some (b, u)
      → Waits b id.inner p.method_call
  Waits-in id b u st p h =
      let same : p.state ≡ b = state_of p.state b p.param u (p.there) h in rw (← same) p.waits
    where
      state_of :
          (a b : BatchState Value) (v u : T)
          → entry st id.outer ≡ some (a, v)
          → entry st id.outer ≡ some (b, u)
          → a ≡ b
      state_of a b v u g h = ground (arith, g, h)

  pub Settled-Pending :
      (id : BatchesElemId) (st st' : BatchesState Value T)
      → Settled st st'
      → Pending id st
      → Pending id st'
  Settled-Pending id st st' (n, f) p = elim (f id.outer) [
    | inl e ↦ moved id st st' e p
    | inr d ↦ absurd (
        ready-not-Waits d.old id.inner p.method_call d.ready
          (Waits-in id d.old d.param st p d.there))
  ]

  pub at_key :
      (k j : ℕ) (st : BatchesState Value T) (o : Option (BatchState Value × T))
      → (k == j) ≡ true
      → entry st k ≡ o
      → entry st j ≡ o
  at_key k j st o e h = subst (λ i. entry st i ≡ o) (beq_sound k j e) h

  -- The batch of the id is written anew, and the call still waits there.
  pub kept :
      (id : BatchesElemId) (k : ℕ) (b : BatchState Value) (u : T) (st st' : BatchesState Value T)
      → entry st k ≡ some (b, u)
      → Writes k (some ((Batch.next b).1, u)) st st'
      → Pending id st
      → Pending id st'
  kept id k b u st st' h (n, w) p = elim (Bool-cases (k == id.outer)) [
    | inr e ↦ moved id st st' (w id.outer ∙ rw e refl) p
    | inl e ↦ record {
      state = (Batch.next b).1;
      param = u;
      method_call = p.method_call;
      there = w id.outer ∙ rw e refl;
      waits =
          next-Waits b id.inner p.method_call
            (Waits-in id b u st p (at_key k id.outer st (some (b, u)) e h));
    }
  ]

  pub gone :
      (id : BatchesElemId) (k : ℕ) (b : BatchState Value) (u : T) (st st' : BatchesState Value T)
      → entry st k ≡ some (b, u)
      → Batch.is_ready_to_respond b ≡ true
      → Writes k none st st'
      → Pending id st
      → Pending id st'
  gone id k b u st st' h r (n, w) p = elim (Bool-cases (k == id.outer)) [
    | inr e ↦ moved id st st' (w id.outer ∙ rw e refl) p
    | inl e ↦ absurd (
        ready-not-Waits b id.inner p.method_call r
          (Waits-in id b u st p (at_key k id.outer st (some (b, u)) e h)))
  ]

  pub state_after :
      (o : Option (BatchesEvent Value T)) (o' : Option (BatchesEvent Value T))
      (a b : BatchesState Value T) (r : Polled Value T)
      → r ≡ some (o, a)
      → r ≡ some (o', b)
      → a ≡ b
  state_after o o' a b r g h = ground (arith, g, h)

  Visited-Pending :
      (id : BatchesElemId) (k : ℕ) (b : BatchState Value) (u : T) (st st' : BatchesState Value T)
      (r : Polled Value T) (ev : Option (BatchesEvent Value T))
      → entry st k ≡ some (b, u)
      → Visited k b u st r
      → r ≡ some (ev, st')
      → Pending id st
      → Pending id st'
  Visited-Pending id k b u st st' r ev h (skipped s f n w e) g p =
      rw (← state_after none ev s st' r e g) (kept id k b u st s h w p)
  Visited-Pending id k b u st st' r ev h (dropped s f i w e) g p =
      rw (← state_after none ev s st' r e g) (gone id k b u st s h f w p)
  Visited-Pending id k b u st st' r ev h (sent s m f i w e) g p =
      rw (← state_after (some (ready_to_send m u)) ev s st' r e g) (gone id k b u st s h f w p)
  Visited-Pending id k b u st st' r ev h (notified s m n w e) g p =
      rw (← state_after (some (notification m u)) ev s st' r e g) (kept id k b u st s h w p)
  Visited-Pending id k b u st st' r ev h (asked s m n a w e) g p =
      rw
        (← state_after (some (request (record { batch_id = k; inner = m; user_param = u }))) ev s
          st' r e g)
        (kept id k b u st s h w p)

  Outcome-Pending :
      (id : BatchesElemId) (ks : List ℕ) (st st' : BatchesState Value T) (r : Polled Value T)
      (o : Option (BatchesEvent Value T))
      → Outcome ks st r
      → r ≡ some (o, st')
      → Pending id st
      → Pending id st'
  Outcome-Pending id ks st st' r o (idle s t q e) h p =
      rw (← state_after none o s st' r e h) (Settled-Pending id st s t p)
  Outcome-Pending id ks st st' r o (event mid k b u t i at v ev s e) h p =
      Visited-Pending id k b u mid st' r o at v h (Settled-Pending id st mid t p)

  -- `next_event` leaves every waiting call where it is.
  pub next_event-Pending :
      (id : BatchesElemId) (ks : List ℕ) (st st' : BatchesState Value T)
      (o : Option (BatchesEvent Value T))
      → Lists ks st
      → Distinct ks
      → next_event ks st ≡ some (o, st')
      → Pending id st
      → Pending id st'
  next_event-Pending id ks st st' o l d h p =
      Outcome-Pending id ks st st' (next_event ks st) o (next_event-Outcome ks st l d) h p
