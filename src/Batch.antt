-- ===== src/Batch.antt =====
-- types/src/jsonrpc/wrapped/batch.rs: the state of one request of a client, single or batch. A
-- `BatchElem`, which borrows an entry of `requests`, is the index of that entry and a copy of it.
pub mod Accounts
pub mod History
pub mod Finishing
pub mod Elements
use jsonrpsee.Base.{
  ℕ, List, [], ◌∷◌, ◌++◌, Option, none, some, Bool, true, false, ◌&&◌, Result, ok, err, String,
  length, get_elem?, set, all_of, is_none, if◌then◌else◌,
}
use jsonrpsee.Types.Errors.{Error, error_invalid_request}
use jsonrpsee.Types.Request.{
  MethodCall, Notification, Call, method_call, invalid, Request, CallId, v2,
}
use jsonrpsee.Types.Params.{Params}
use jsonrpsee.Types.Response.{Output, Response, output_from}

pub data ToYield (Value : Type 0) : Type 0 where
  notification : Notification Value → ToYield Value
  request : MethodCall Value → ToYield Value

pub record BatchState (Value : Type 0) : Type 0 where
  pub to_yield : List (ToYield Value)
  pub requests : List (Option (MethodCall Value))
  pub responses : List (Output Value)
  pub is_batch : Bool

pub record BatchElem (Value : Type 0) : Type 0 where
  pub index : ℕ
  pub elem : Option (MethodCall Value)

pub data BatchInc (Value : Type 0) : Type 0 where
  notification : Notification Value → BatchInc Value
  request : BatchElem Value → BatchInc Value

abbrev is_empty {ℓ} : {A : Type ℓ} → List A → Bool
is_empty [] = true
is_empty (x ∷ xs) = false

module _ {Value : Type 0} where
  -- the body of the loop of `BatchState::from_iter`
  unfoldable pub add_call : BatchState Value → Call Value → BatchState Value
  unfolding output_from error_invalid_request
  add_call s (method_call c) = record s { to_yield = s.to_yield ++ ToYield.request c ∷ [] }
  add_call s (Call.notification n) = record s {
    to_yield = s.to_yield ++ ToYield.notification n ∷ [];
  }
  add_call s (invalid i) = record s {
    responses = s.responses ++ output_from (err error_invalid_request) i v2 ∷ [];
  }

  -- the loop of `BatchState::from_iter`
  unfoldable pub add_calls : BatchState Value → List (Call Value) → BatchState Value
  unfolding add_call
  add_calls s [] = s
  add_calls s (c ∷ cs) = add_calls (add_call s c) cs

  -- `BatchState::from_iter`
  unfoldable pub from_iter : List (Call Value) → Bool → BatchState Value
  unfolding add_calls
  from_iter calls b =
      add_calls (record { to_yield = []; requests = []; responses = []; is_batch = b }) calls

  -- `BatchState::from_request`
  unfoldable pub from_request : Request Value → BatchState Value
  unfolding from_iter
  from_request (Request.single call) = from_iter (call ∷ []) false
  from_request (Request.batch calls) = from_iter calls true

  -- `BatchState::request_by_id`
  elem_at : ℕ → Option (Option (MethodCall Value)) → Option (BatchElem Value)
  elem_at i none = none
  elem_at i (some none) = none
  elem_at i (some (some c)) = some (record { index = i; elem = some c })

  unfoldable pub request_by_id : BatchState Value → ℕ → Option (BatchElem Value)
  unfolding elem_at
  request_by_id s i = elem_at i (get_elem? s.requests i)

  -- `BatchState::next`
  yield_next : List (ToYield Value) → BatchState Value → Option (BatchInc Value) × BatchState Value
  yield_next [] s = (none, s)
  yield_next (ToYield.notification n ∷ rest) s =
      (some (BatchInc.notification n), record s { to_yield = rest })
  yield_next (ToYield.request c ∷ rest) s = (
    some (BatchInc.request (record { index = length s.requests; elem = some c })),
    record s { to_yield = rest; requests = s.requests ++ some c ∷ [] },
  )

  unfoldable pub next : BatchState Value → Option (BatchInc Value) × BatchState Value
  unfolding yield_next
  next s = yield_next s.to_yield s

  -- `BatchState::is_ready_to_respond`
  unfoldable pub is_ready_to_respond : BatchState Value → Bool
  is_ready_to_respond s = is_empty s.to_yield && all_of is_none s.requests

  batch_response : List (Output Value) → Option (Response Value)
  batch_response [] = none
  batch_response (o ∷ os) = some (Response.batch (o ∷ os))

  single_response : List (Output Value) → Option (Response Value)
  single_response [] = none
  single_response (o ∷ os) = some (Response.single o)

  -- `BatchState::into_response`: the state comes back where it is not ready.
  unfoldable pub into_response :
      BatchState Value → Result (Option (Response Value)) (BatchState Value)
  unfolding is_ready_to_respond batch_response single_response
  into_response s =
      if is_ready_to_respond s
      then ok (if s.is_batch then batch_response s.responses else single_response s.responses)
      else err s

  -- `BatchElem::set_response` at an index. `none` is the panic of its `expect`.
  answer_elem :
      BatchState Value
      → ℕ
      → Result Value (Error Value)
      → Option (Option (MethodCall Value))
      → Option (BatchState Value)
  unfolding output_from
  answer_elem s i r none = none
  answer_elem s i r (some none) = none
  answer_elem s i r (some (some c)) = some (record s {
    requests = set s.requests i none;
    responses = s.responses ++ output_from r c.id v2 ∷ [];
  })

  unfoldable pub set_response :
      BatchState Value → ℕ → Result Value (Error Value) → Option (BatchState Value)
  unfolding answer_elem
  set_response s i r = answer_elem s i r (get_elem? s.requests i)
