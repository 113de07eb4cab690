-- ===== src/Batch/History.antt =====
-- The life of a batch, from its request to its response: any sequence of `next` and
-- `set_response`, in any order (types/src/jsonrpc/wrapped/batch.rs).
use mathlib.Core.List.{append-nil, append_assoc, perm_middle, map-append}
use mathlib.Core.List.Perm
use jsonrpsee.Base.{
  ℕ, List, [], ◌∷◌, ◌++◌, map, Option, none, some, Bool, true, false, Result, ok, ◌≡◌, sym, ap, ◌∙◌,
  Perm,
}
use jsonrpsee.Types.Errors.{Error}
use jsonrpsee.Types.Request.{MethodCall, Request, v2}
use jsonrpsee.Types.Response.{Output, Response, output_from}
use jsonrpsee.Batch.{BatchState, from_request, next, is_ready_to_respond, into_response}
use jsonrpsee.Batch.Accounts.{
  calls_of, is_batch_request, method_calls, refusals, waiting, answered, from_request-account,
  next-waiting, next-rest, answered-waiting, ready-waiting,
}
use jsonrpsee.Batch.Elements.{Waits}

-- the answers that the server has given, oldest first
abbrev pub Answers : Type 0 → Type 0
Answers Value = List (MethodCall Value × Result Value (Error Value))

-- The states that a request can reach, with the answers given so far.
pub data Run {Value : Type 0} (rq : Request Value) : Answers Value → BatchState Value → Type 0 where
  start : Run rq [] (from_request rq)
  yield : {log : Answers Value} {s : BatchState Value} → Run rq log s → Run rq log (next s).1
  answer :
      {log : Answers Value} {s : BatchState Value}
      → Run rq log s
      → (i : ℕ) (c : MethodCall Value) (r : Result Value (Error Value)) → Waits s i c
      → Run rq (log ++ (c, r) ∷ []) (answered s i c r)

module _ {Value : Type 0} where
  -- the output for an answered call
  abbrev pub reply : MethodCall Value × Result Value (Error Value) → Output Value
  reply (c, r) = output_from r c.id v2

  abbrev pub answered_calls : Answers Value → List (MethodCall Value)
  answered_calls log = map (λ entry. entry.0) log

  -- the message that carries a list of outputs
  abbrev pub message : Bool → List (Output Value) → Option (Response Value)
  message b [] = none
  message true (o ∷ os) = some (Response.batch (o ∷ os))
  message false (o ∷ os) = some (Response.single o)

  pub record Account (rq : Request Value) (log : Answers Value) (s : BatchState Value)
      : Type 0 where
    pub sent : s.responses ≡ refusals (calls_of rq) ++ map reply log
    pub kept : Perm (waiting s ++ answered_calls log) (method_calls (calls_of rq))
    pub mode : s.is_batch ≡ is_batch_request rq

  start-Account : (rq : Request Value) → Account rq [] (from_request rq)
  start-Account rq =
      let (ys, rs, os, m) = from_request-account rq in
      record {
        sent = os ∙ sym (append-nil _);
        kept =
            rw
              (
                ys,
                rs,
                append-nil (method_calls (calls_of rq)),
                append-nil (method_calls (calls_of rq)),
              )
              Perm.rfl;
        mode = m;
      }

  yield-Account :
      (rq : Request Value) (log : Answers Value) (s : BatchState Value)
      → Account rq log s
      → Account rq log (next s).1
  yield-Account rq log s a = record {
    sent = (next-rest s).0 ∙ a.sent;
    kept = Perm.trans (Perm.append_right (answered_calls log) (next-waiting s)) a.kept;
    mode = (next-rest s).1 ∙ a.mode;
  }

  -- A call that is answered goes from the ones that wait to the ones that are answered.
  pub answered_more :
      (log : Answers Value) (s : BatchState Value) (i : ℕ) (c : MethodCall Value)
      (r : Result Value (Error Value))
      → Waits s i c
      → Perm
          (waiting (answered s i c r) ++ answered_calls (log ++ (c, r) ∷ []))
          (waiting s ++ answered_calls log)
  answered_more log s i c r h =
      rw
        (map-append (λ (entry : MethodCall Value × Result Value (Error Value)). entry.0) log
          ((c, r) ∷ []))
        (Perm.trans
          (Perm.append_left (waiting (answered s i c r)) (perm_middle (answered_calls log) []))
          (rw append-nil (
            Perm.trans (perm_middle (waiting (answered s i c r)) (answered_calls log))
              (Perm.append_right (answered_calls log) (answered-waiting s i c r h)))))

  answer-Account :
      (rq : Request Value) (log : Answers Value) (s : BatchState Value)
      → Account rq log s
      → (i : ℕ) (c : MethodCall Value) (r : Result Value (Error Value)) → Waits s i c
      → Account rq (log ++ (c, r) ∷ []) (answered s i c r)
  answer-Account rq log s a i c r h = record {
    sent =
        ap (λ os. os ++ reply (c, r) ∷ []) a.sent
        ∙ rw (map-append reply log ((c, r) ∷ []), append_assoc);
    kept = Perm.trans (answered_more log s i c r h) a.kept;
    mode = a.mode;
  }

  -- Every reachable state accounts for every call of its request.
  pub Run-Account :
      (rq : Request Value) {log : Answers Value} {s : BatchState Value}
      → Run rq log s
      → Account rq log s
  Run-Account rq start = start-Account rq
  Run-Account rq (yield {log} {s} r) = yield-Account rq log s (Run-Account rq r)
  Run-Account rq (answer {log} {s} r i c x h) = answer-Account rq log s (Run-Account rq r) i c x h

  message_lem :
      (b : Bool) (os : List (Output Value)) (s : BatchState Value)
      → s.responses ≡ os
      → s.is_batch ≡ b
      → is_ready_to_respond s ≡ true
      → into_response s ≡ ok (message b os)
  unfolding into_response
  message_lem true [] s e m h = rw (h, m, e)
  message_lem true (o ∷ os) s e m h = rw (h, m, e)
  message_lem false [] s e m h = rw (h, m, e)
  message_lem false (o ∷ os) s e m h = rw (h, m, e)

  -- Whatever the order in which the server takes the calls of a request and answers them: once the
  -- batch is ready, every method call of the request has been answered exactly once, and the
  -- response holds the errors for the invalid calls and then each answer, in the order given.
  pub into_response-Run :
      (rq : Request Value) (log : Answers Value) (s : BatchState Value)
      → Run rq log s
      → is_ready_to_respond s ≡ true
      → (into_response s
          ≡ ok (message (is_batch_request rq) (refusals (calls_of rq) ++ map reply log)))
        × Perm (answered_calls log) (method_calls (calls_of rq))
  into_response-Run rq log s r h =
      let a = Run-Account rq r in
      (message_lem (is_batch_request rq) _ s a.sent a.mode h, rw (ready-waiting s h) at a.kept)
