-- ===== src/Examples/Calls.antt =====
-- Concrete requests for types/src/jsonrpc/wrapped, and what the theorems say of them.
use jsonrpsee.Base.{
  ℕ, [], ◌∷◌, ◌++◌, map, Option, none, some, true, ok, ◌≡◌, refl, inl, inr, Perm, arith,
}
use jsonrpsee.Base.Dict
use jsonrpsee.Base.Dict.{Dict}
use jsonrpsee.Types.Response.{Output, output_from}
use jsonrpsee.Types.Codes.{ErrorCode}
use jsonrpsee.Types.Params.{array}
use jsonrpsee.Types.Request.{MethodCall, Notification, Call, Request, CallId, v2}
use jsonrpsee.Batch.{
  BatchState, ToYield, from_request, next, set_response, is_ready_to_respond, into_response,
  request_by_id,
}
use jsonrpsee.Batch.Accounts.{calls_of, is_batch_request, method_calls, refusals}
use jsonrpsee.Batch.History.{
  Run, start, yield, answer, Answers, reply, answered_calls, message, into_response-Run,
}
use jsonrpsee.Batch.Finishing.{Finishes, Run-Finishes}
use jsonrpsee.Batches
use jsonrpsee.Batches.{
  BatchesState, BatchesElem, BatchesElemId, next_event, inject, visit, u64_mod, elem_id,
  what_can_we_do,
}
use jsonrpsee.Batches.Events.{Lists, Outcome, next_event-Outcome}
use jsonrpsee.Batches.Injection.{Injected, inject-Injected}
use jsonrpsee.Batches.Refinement.{Runs, Label, Does, Spec, view, Does-refines}
use jsonrpsee.Batches.Requests.{Answered, set_response-Answered}

abbrev pub sum_call : MethodCall ℕ
sum_call = record { jsonrpc = v2; method = "sum"; params = array (1 ∷ 2 ∷ []); id = CallId.num 7 }

abbrev pub hello : Notification ℕ
hello = record { jsonrpc = v2; method = "hello"; params = array [] }

abbrev pub three_calls : Request ℕ
three_calls =
    Request.batch
      (Call.method_call sum_call ∷ Call.notification hello ∷ Call.invalid CallId.null ∷ [])

abbrev refusal : Output ℕ
refusal = Output.failure (record {
  jsonrpc = v2;
  error = record { code = ErrorCode.invalid_request; message = "Invalid request"; payload = none };
  id = CallId.null;
})

-- the batch as it arrives, after its method call has been handed out, and after its answer
abbrev pub fresh_batch : BatchState ℕ
fresh_batch = record {
  to_yield = ToYield.request sum_call ∷ ToYield.notification hello ∷ [];
  requests = [];
  responses = refusal ∷ [];
  is_batch = true;
}

abbrev pub handed_out : BatchState ℕ
handed_out = record {
  to_yield = ToYield.notification hello ∷ [];
  requests = some sum_call ∷ [];
  responses = refusal ∷ [];
  is_batch = true;
}

abbrev finished_batch : BatchState ℕ
finished_batch = record {
  to_yield = [];
  requests = none ∷ [];
  responses =
      refusal ∷ Output.success (record { jsonrpc = v2; result = 3; id = CallId.num 7 }) ∷ [];
  is_batch = true;
}

abbrev one_answer : Answers ℕ
one_answer = (sum_call, ok 3) ∷ []

three_calls-Run : Run three_calls one_answer finished_batch
unfolding from_request next output_from
three_calls-Run = yield (answer (yield start) 0 sum_call (ok 3) refl)

into_response-Run_example :
    (into_response finished_batch
      ≡ ok (
          message
            (is_batch_request three_calls)
            (refusals (calls_of three_calls) ++ map reply one_answer)))
    × Perm (answered_calls one_answer) (method_calls (calls_of three_calls))
unfolding is_ready_to_respond
into_response-Run_example =
    into_response-Run three_calls one_answer finished_batch three_calls-Run refl

-- A run that stops after its method call has been handed out
half-Run : Run three_calls [] handed_out
unfolding from_request next output_from
half-Run = yield start

Run-Finishes_example : Finishes (λ c. ok 5) three_calls [] handed_out
Run-Finishes_example = Run-Finishes (λ c. ok 5) three_calls [] handed_out half-Run

-- One batch, of connection 4, at id 0; nothing is handed out.
abbrev pub one_batch : BatchesState ℕ (Option ℕ)
one_batch = record { next_batch_id = 1; batches = (0, (fresh_batch, some 4)) ∷ [] }

-- The same after the method call has been handed out.
abbrev pub asked_batch : BatchesState ℕ (Option ℕ)
asked_batch = record { next_batch_id = 1; batches = (0, (handed_out, some 4)) ∷ [] }

abbrev pub first_elem : BatchesElem ℕ (Option ℕ)
first_elem = record {
  batch_id = 0;
  inner = record { index = 0; elem = some sum_call };
  user_param = some 4;
}

one_batch-Lists : Lists (0 ∷ []) one_batch
unfolding Dict.get
one_batch-Lists j (inl p) = (fresh_batch, some 4, rw p refl)
one_batch-Lists j (inr i) = elim i [ ]

next_event-Outcome_example : Outcome (0 ∷ []) one_batch (next_event (0 ∷ []) one_batch)
unfolding Dict.get
next_event-Outcome_example =
    next_event-Outcome (0 ∷ []) one_batch one_batch-Lists ((λ j i. elim i [ ]), tt)

set_response-Answered_example :
    (st' : BatchesState ℕ (Option ℕ)) × (Batches.set_response
        (elem_id first_elem)
        (ok 3)
        asked_batch
      ≡ some st')
    × Answered (elem_id first_elem) asked_batch st'
unfolding Batches.request_by_id request_by_id Dict.get
set_response-Answered_example =
    set_response-Answered (elem_id first_elem) (ok 3) asked_batch first_elem refl

inject-Injected_example :
    (st' : BatchesState ℕ (Option ℕ)) × (inject three_calls (some 9) one_batch ≡ some st')
    × Injected (from_request three_calls) (some 9) one_batch st'
inject-Injected_example = inject-Injected three_calls (some 9) one_batch (omega arith) (omega arith)

-- The batch comes in, its method call is handed out, and answered.
abbrev answered_batch : BatchesState ℕ (Option ℕ)
answered_batch = record {
  next_batch_id = 1;
  batches =
      (
        0,
        (
          record {
            to_yield = ToYield.notification hello ∷ [];
            requests = none ∷ [];
            responses =
                refusal
                ∷ Output.success (record { jsonrpc = v2; result = 3; id = CallId.num 7 })
                ∷ [];
            is_batch = true;
          },
          some 4,
        ),
      )
      ∷ [];
}

calls-Runs :
    Runs
      (Does {Value = ℕ} {T = Option ℕ})
      one_batch
      (Label.hands first_elem ∷ Label.answers (elem_id first_elem) ∷ [])
      answered_batch
unfolding next_event visit what_can_we_do is_ready_to_respond next request_by_id Dict.get
    Dict.insert Batches.request_by_id Batches.set_response set_response output_from
calls-Runs =
    Runs.then_step (Label.answers (elem_id first_elem))
      (Runs.then_step (Label.hands first_elem) Runs.start (
        Does.polls (0 ∷ []) (some (Batches.BatchesEvent.request first_elem)) one_batch-Lists
          ((λ j i. elim i [ ]), tt) refl))
      (Does.responds (elem_id first_elem) (ok 3) first_elem refl refl)

Does-refines_example :
    Runs
      (Spec {Value = ℕ} {T = Option ℕ})
      (view one_batch)
      (Label.hands first_elem ∷ Label.answers (elem_id first_elem) ∷ [])
      (view answered_batch)
Does-refines_example =
    Does-refines one_batch (Label.hands first_elem ∷ Label.answers (elem_id first_elem) ∷ [])
      answered_batch calls-Runs
