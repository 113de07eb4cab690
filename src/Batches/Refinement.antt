-- ===== src/Batches/Refinement.antt =====
-- The table of batches (types/src/jsonrpc/wrapped/batches.rs) refines a map from ids to the requests that
-- wait for their answer: a request comes into it when it is handed out, and leaves it when it is answered.
use jsonrpsee.Base.{
  ℕ, List, [], ◌∷◌, ◌++◌, Option, none, some, if◌then◌else◌, Result, ◌≡◌, ◌≢◌, inl, inr, refl, sym,
  ap, ◌∙◌, subst, arith, nat_eq, ◌==◌, Bool-cases,
}
use jsonrpsee.Types.Request.{Request}
use jsonrpsee.Types.Errors.{Error}
use jsonrpsee.Batch
use jsonrpsee.Batch.{BatchState}
use jsonrpsee.Batch.Accounts.{from_request-account}
use jsonrpsee.Batches.{
  BatchesState, BatchesEvent, BatchesElem, BatchesElemId, request, notification, ready_to_send,
  elem_id, next_event, request_by_id, set_response, inject,
}
use jsonrpsee.Batches.Requests.{Answered, set_response-Answered, request_by_id-ap}
use jsonrpsee.Batches.Events.{Lists, Distinct, next_event-Outcome}
use jsonrpsee.Batches.Injection.{Injected}
use jsonrpsee.Batches.Persistence.{at_key}
use jsonrpsee.Batches.Answers.{inject-Injected_if}
use jsonrpsee.Batches.Views.{names, Alike, view-vacant, view-empty}
use jsonrpsee.Batches.Showings.{Outcome-Showing, handed_new}

-- A run of labelled steps, each after the ones before.
pub data Runs {State Label : Type 0} (Step : Label → State → State → Type 0) (s : State)
    : List Label → State → Type 0 where
  start : Runs Step s [] s
  then_step :
      {ls : List Label} {t u : State} (l : Label)
      → Runs Step s ls t
      → Step l t u
      → Runs Step s (ls ++ l ∷ []) u

module _ (Value T : Type 0) where
  -- The abstract state: which requests wait, by their ids.
  abbrev pub View : Type 0
  View = BatchesElemId → Option (BatchesElem Value T)

  -- What can be seen of a step: nothing, a request that is handed out, or an answer.
  pub data Label : Type 0 where
    quiet : Label
    hands : BatchesElem Value T → Label
    answers : BatchesElemId → Label

module _ {Value T : Type 0} where
  -- The abstract step: an id under which no request waits is given to a request, or a request that waits
  -- is answered; no other request is touched.
  abbrev pub Spec : Label Value T → View Value T → View Value T → Type 0
  Spec quiet v v' = (id : BatchesElemId) → v' id ≡ v id
  Spec (hands x) v v' =
      (v (elem_id x) ≡ none)
      × ((id : BatchesElemId) → v' id ≡ (if names (elem_id x) id then some x else v id))
  Spec (answers a) v v' =
      (v a ≢ none) × ((id : BatchesElemId) → v' id ≡ (if names a id then none else v id))

  abbrev pub view : BatchesState Value T → View Value T
  view st id = request_by_id id st

  abbrev pub label_of : Option (BatchesEvent Value T) → Label Value T
  label_of (some (request x)) = hands x
  label_of (some (notification n u)) = quiet
  label_of (some (ready_to_send r u)) = quiet
  label_of none = quiet

  -- The operations on the table: a request of a client comes in, the table is polled, with its keys in
  -- any order, and a request that waits is answered.
  pub data Does : Label Value T → BatchesState Value T → BatchesState Value T → Type 0 where
    injects :
        {st st' : BatchesState Value T} (rq : Request Value) (u : T)
        → inject rq u st ≡ some st'
        → Does quiet st st'
    polls :
        {st st' : BatchesState Value T} (ks : List ℕ) (o : Option (BatchesEvent Value T))
        → Lists ks st
        → Distinct ks
        → next_event ks st ≡ some (o, st')
        → Does (label_of o) st st'
    responds :
        {st st' : BatchesState Value T} (id : BatchesElemId) (r : Result Value (Error Value))
        (x : BatchesElem Value T)
        → request_by_id id st ≡ some x
        → set_response id r st ≡ some st'
        → Does (answers id) st st'

  polls-Spec :
      (ks : List ℕ) (st s : BatchesState Value T) (o : Option (BatchesEvent Value T))
      → Lists ks st
      → Distinct ks
      → next_event ks st ≡ some (o, s)
      → Spec (label_of o) (view st) (view s)
  polls-Spec ks st s (some (request x)) l d h = (
    handed_new ks st s x l d h,
    Outcome-Showing ks st s (next_event ks st) (some (request x)) (next_event-Outcome ks st l d) h,
  )
  polls-Spec ks st s (some (notification n u)) l d h =
      Outcome-Showing ks st s (next_event ks st) (some (notification n u))
        (next_event-Outcome ks st l d) h
  polls-Spec ks st s (some (ready_to_send r u)) l d h =
      Outcome-Showing ks st s (next_event ks st) (some (ready_to_send r u))
        (next_event-Outcome ks st l d) h
  polls-Spec ks st s none l d h =
      Outcome-Showing ks st s (next_event ks st) none (next_event-Outcome ks st l d) h

  Injected-Alike :
      (b : BatchState Value) (u : T) (st st' : BatchesState Value T)
      → b.requests ≡ []
      → Injected b u st st'
      → Alike st st'
  Injected-Alike b u st st' e i id = elim (Bool-cases (i.id == id.outer)) [
    | inr q ↦ request_by_id-ap id st st' (i.entries id.outer ∙ rw q refl)
    | inl q ↦
        view-empty id b u st' (i.entries id.outer ∙ rw q refl) e
        ∙ sym (view-vacant id st (at_key i.id id.outer st none q i.vacant))
  ]

  Answered-view :
      (a : BatchesElemId) (st s : BatchesState Value T)
      → Answered a st s
      → (id : BatchesElemId) → view s id ≡ (if names a id then none else view st id)
  Answered-view a st s w id = elim (Bool-cases (a.outer == id.outer)) [
    | inr p ↦
        rw p (w.others id (inl (λ e. let t = (nat_eq.eqb_iff a.outer id.outer).1 e in cc (p, t))))
    | inl p ↦ elim (Bool-cases (a.inner == id.inner)) [
      | inr q ↦
          rw (p, q)
            (w.others id (inr (λ e. let t = (nat_eq.eqb_iff a.inner id.inner).1 e in cc (q, t))))
      | inl q ↦
          let outer : a.outer ≡ id.outer = (nat_eq.eqb_iff a.outer id.outer).0 p in
          let inner : a.inner ≡ id.inner = (nat_eq.eqb_iff a.inner id.inner).0 q in
          let same : a ≡ id =
            ap (λ (o : ℕ). record { outer = o; inner = a.inner }) outer
            ∙ ap (λ (i : ℕ). record { outer = id.outer; inner = i }) inner in
          rw (p, q) (subst (λ i. view s i ≡ none) same w.gone)
    ]
  ]

  responds-Spec :
      (a : BatchesElemId) (r : Result Value (Error Value)) (x : BatchesElem Value T)
      (st st' : BatchesState Value T)
      → request_by_id a st ≡ some x
      → set_response a r st ≡ some st'
      → Spec (answers a) (view st) (view st')
  responds-Spec a r x st st' found h =
      let (s, e, answered) = set_response-Answered a r st x found in
      let p : s ≡ st' = ground (arith, e, h) in
      (
        λ z. ground (arith, z, found),
        subst (λ t. (id : BatchesElemId) → view t id ≡ (if names a id then none else view st id)) p
            (Answered-view a st s answered),
      )

  Does-Spec :
      (l : Label Value T) (st st' : BatchesState Value T)
      → Does l st st'
      → Spec l (view st) (view st')
  Does-Spec l st st' (injects rq u h) =
      Injected-Alike (Batch.from_request rq) u st st' (from_request-account rq).1
        (inject-Injected_if rq u st st' h)
  Does-Spec l st st' (polls ks o n d h) = polls-Spec ks st st' o n d h
  Does-Spec l st st' (responds id r x f h) = responds-Spec id r x st st' f h

  -- Every run of the table of batches, by requests that come in, polls with the keys in any order, and
  -- answers to requests that wait, is a run of the abstract map with the same labels: a request that is
  -- handed out gets an id under which none waits, an answer takes out its own request, and nothing else
  -- changes which requests are found.
  pub Does-refines :
      (st : BatchesState Value T) (ls : List (Label Value T)) (st' : BatchesState Value T)
      → Runs Does st ls st'
      → Runs Spec (view st) ls (view st')
  Does-refines st ls st' start = start
  Does-refines st ls st' (then_step {ls = xs} {t = t} l r s) =
      then_step l (Does-refines st xs t r) (Does-Spec l t st' s)
