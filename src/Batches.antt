-- ===== src/Batches.antt =====
-- types/src/jsonrpc/wrapped/batches.rs: all batches that a server has received and not answered.
-- `T` is the user parameter of a batch. A function that can panic returns an `Option`, with `none`
-- for the panic.
pub mod Visits
pub mod Events
pub mod Injection
pub mod Requests
pub mod Sizes
pub mod Keys
pub mod Persistence
pub mod Freshness
pub mod Answers
pub mod Views
pub mod Showings
pub mod Refinement
use jsonrpsee.Base.{
  ℕ, suc, ◌+◌, ◌%◌, ◌^◌, List, [], ◌∷◌, Option, none, some, Bool, true, false, Result, ok, err,
  length, if◌then◌else◌, nat_eq,
}
use jsonrpsee.Base.Dict
use jsonrpsee.Base.Dict.{Dict}
use jsonrpsee.Types.Errors.{Error}
use jsonrpsee.Types.Request.{Notification, Request}
use jsonrpsee.Types.Response.{Response}
use jsonrpsee.Batch
use jsonrpsee.Batch.{BatchState, BatchElem, BatchInc}

pub record BatchesState (Value T : Type 0) : Type 0 where
  pub next_batch_id : ℕ
  pub batches : Dict ℕ (BatchState Value × T)

pub record BatchesElem (Value T : Type 0) : Type 0 where
  pub batch_id : ℕ
  pub inner : BatchElem Value
  pub user_param : T

pub record BatchesElemId : Type 0 where
  pub outer : ℕ
  pub inner : ℕ

pub data BatchesEvent (Value T : Type 0) : Type 0 where
  notification : Notification Value → T → BatchesEvent Value T
  request : BatchesElem Value T → BatchesEvent Value T
  ready_to_send : Response Value → T → BatchesEvent Value T

pub data WhatCanWeDo (Value : Type 0) : Type 0 where
  nothing : WhatCanWeDo Value
  ready_to_respond : WhatCanWeDo Value
  notification : Notification Value → WhatCanWeDo Value
  request : ℕ → WhatCanWeDo Value

-- the numbers of type `u64`
abbrev pub u64_mod : ℕ
u64_mod = 2 ^ 64

-- an event, if there is one, and the new state; `none` is a panic
abbrev pub Polled : Type 0 → Type 0 → Type 0
Polled Value T = Option (Option (BatchesEvent Value T) × BatchesState Value T)

-- the first `match` in the loop of `next_event`
unfoldable pub what_can_we_do :
    {Value : Type 0} → Bool → Option (BatchInc Value) → WhatCanWeDo Value
what_can_we_do true none = ready_to_respond
what_can_we_do false none = nothing
what_can_we_do b (some (BatchInc.notification n)) = WhatCanWeDo.notification n
what_can_we_do b (some (BatchInc.request e)) = WhatCanWeDo.request e.index

module _ {Value T : Type 0} where
  -- `BatchesState::new`
  unfoldable pub new : BatchesState Value T
  new = record { next_batch_id = 0; batches = [] }

  send_ready :
      Result (Option (Response Value)) (BatchState Value)
      → T
      → BatchesState Value T
      → Polled Value T
  send_ready (err b) u st = none
  send_ready (ok none) u st = some (none, st)
  send_ready (ok (some r)) u st = some (some (ready_to_send r u), st)

  show_request : ℕ → Option (BatchElem Value) → T → BatchesState Value T → Polled Value T
  show_request id none u st = none
  show_request id (some e) u st =
      some (some (BatchesEvent.request (record { batch_id = id; inner = e; user_param = u })), st)

  -- the second `match` in the loop of `next_event`, with the entry of the batch
  act : WhatCanWeDo Value → ℕ → BatchState Value → T → BatchesState Value T → Polled Value T
  unfolding send_ready show_request Dict.remove Batch.into_response Batch.request_by_id
  act nothing id b u st = some (none, st)
  act ready_to_respond id b u st =
      send_ready (Batch.into_response b) u (record st { batches = Dict.remove st.batches id })
  act (WhatCanWeDo.notification n) id b u st = some (some (BatchesEvent.notification n u), st)
  act (WhatCanWeDo.request i) id b u st = show_request id (Batch.request_by_id b i) u st

  visit_entry : ℕ → Option (BatchState Value × T) → BatchesState Value T → Polled Value T
  unfolding act what_can_we_do Batch.next Batch.is_ready_to_respond Dict.insert
  visit_entry id none st = none
  visit_entry id (some (b, u)) st =
      let (inc, b') = Batch.next b in
      act (what_can_we_do (Batch.is_ready_to_respond b) inc) id b' u
        (record st { batches = Dict.insert st.batches id (b', u) })

  -- the body of the loop of `next_event`, for one key
  unfoldable pub visit : ℕ → BatchesState Value T → Polled Value T
  unfolding visit_entry Dict.get
  visit id st = visit_entry id (Dict.get st.batches id) st

  -- `BatchesState::next_event`. The list holds the keys of the table in the order in which the
  -- table iterates over them.
  unfoldable pub next_event : List ℕ → BatchesState Value T → Polled Value T
  unfolding visit
  next_event [] st = some (none, st)
  next_event (k ∷ ks) st = elim (visit k st) [
    | none ↦ none
    | some (o, st') ↦ elim o [ some ev ↦ some (some ev, st') | none ↦ next_event ks st' ]
  ]

  -- The loop of `BatchesState::inject`, on fuel: `none` where the fuel ends before a vacant id is
  -- found.
  unfoldable pub inject_loop :
      ℕ → BatchState Value → T → BatchesState Value T → Option (BatchesState Value T)
  unfolding Dict.get Dict.insert
  inject_loop ℕ.zero b u st = none
  inject_loop (suc fuel) b u st =
      let id = st.next_batch_id in
      let st' : BatchesState Value T = record st { next_batch_id = (id + 1) % u64_mod } in
      let again = inject_loop fuel b u st' in
      if Dict.contains st.batches id
      then again
      else some (record st' { batches = Dict.insert st.batches id (b, u) })

  -- `BatchesState::inject`, with a round for each batch and one more
  unfoldable pub inject : Request Value → T → BatchesState Value T → Option (BatchesState Value T)
  unfolding inject_loop Batch.from_request
  inject rq u st = inject_loop (suc (length st.batches)) (Batch.from_request rq) u st

  -- A write to every user parameter, through `BatchesState::batches`.
  unfoldable pub map_params : (T → T) → BatchesState Value T → BatchesState Value T
  unfolding Dict.map_values
  map_params f st = record st {
    batches = Dict.map_values (λ entry. (entry.0, f entry.1)) st.batches;
  }

  elem_in : ℕ → T → Option (BatchElem Value) → Option (BatchesElem Value T)
  elem_in id u none = none
  elem_in id u (some e) = some (record { batch_id = id; inner = e; user_param = u })

  request_in : BatchesElemId → Option (BatchState Value × T) → Option (BatchesElem Value T)
  unfolding elem_in Batch.request_by_id
  request_in id none = none
  request_in id (some (b, u)) = elem_in id.outer u (Batch.request_by_id b id.inner)

  -- `BatchesState::request_by_id`
  unfoldable pub request_by_id : BatchesElemId → BatchesState Value T → Option (BatchesElem Value T)
  unfolding request_in Dict.get
  request_by_id id st = request_in id (Dict.get st.batches id.outer)

  -- `BatchesElem::id`
  abbrev pub elem_id : BatchesElem Value T → BatchesElemId
  elem_id e = record { outer = e.batch_id; inner = e.inner.index }

  store_batch :
      ℕ → T → Option (BatchState Value) → BatchesState Value T → Option (BatchesState Value T)
  unfolding Dict.insert
  store_batch id u none st = none
  store_batch id u (some b) st = some (record st { batches = Dict.insert st.batches id (b, u) })

  answer_in :
      BatchesElemId
      → Result Value (Error Value)
      → Option (BatchState Value × T)
      → BatchesState Value T
      → Option (BatchesState Value T)
  unfolding store_batch Batch.set_response
  answer_in id r none st = none
  answer_in id r (some (b, u)) st = store_batch id.outer u (Batch.set_response b id.inner r) st

  -- `BatchesElem::set_response`, for the element with an id
  unfoldable pub set_response :
      BatchesElemId
      → Result Value (Error Value)
      → BatchesState Value T
      → Option (BatchesState Value T)
  unfolding answer_in Dict.get
  set_response id r st = answer_in id r (Dict.get st.batches id.outer) st
