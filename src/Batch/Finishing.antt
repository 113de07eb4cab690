-- ===== src/Batch/Finishing.antt =====
-- Every batch can be brought to its response (types/src/jsonrpc/wrapped/batch.rs).
use mathlib.Core.List.{append-nil, append_assoc}
use mathlib.Core.List.Perm
use jsonrpsee.Base.{
  ℕ, zero, suc, List, [], ◌∷◌, ◌++◌, map, some, true, Result, ok, ◌≡◌, refl, inl, inr, Perm, arith,
  length, subst,
}
use jsonrpsee.Types.Errors.{Error}
use jsonrpsee.Types.Request.{MethodCall, Request}
use jsonrpsee.Batch.{
  ToYield, BatchState, next, yield_next, set_response, is_ready_to_respond, into_response,
}
use jsonrpsee.Batch.Accounts.{
  calls_of, is_batch_request, refusals, waiting, pending, answered, next-waiting, ready-waiting,
  set_response-answered,
}
use jsonrpsee.Batch.Elements.{Waits, find_pending, length-pending_set}
use jsonrpsee.Batch.History.{
  Run, yield, answer, Answers, reply, answered_calls, message, answered_more, into_response-Run,
}

module _ {Value : Type 0} where
  to_yield-next :
      (y : ToYield Value) (ys : List (ToYield Value)) (s : BatchState Value)
      → s.to_yield ≡ y ∷ ys
      → (next s).1.to_yield ≡ ys
  unfolding next
  to_yield-next (ToYield.notification n) ys s e = rw (e, yield_next)
  to_yield-next (ToYield.request c) ys s e = rw (e, yield_next)

module _ {Value : Type 0} (give : MethodCall Value → Result Value (Error Value)) where
  -- From the state `s` on, `next` and `set_response` lead to a state, with these answers after one
  -- another, each of which is what `give` says for its call.
  pub data Goes (s : BatchState Value) : Answers Value → BatchState Value → Type 0 where
    stop : Goes s [] s
    by_next : {more : Answers Value} {t : BatchState Value} → Goes s more t → Goes s more (next t).1
    by_answer :
        {more : Answers Value} {t : BatchState Value}
        → Goes s more t
        → (i : ℕ) (c : MethodCall Value) (t' : BatchState Value) → Waits t i c
        → set_response t i (give c) ≡ some t'
        → Goes s (more ++ (c, give c) ∷ []) t'

  -- A continuation of a run, with answers `log`, from its state: it ends in a state that is ready to
  -- respond, has answered just the calls that were not answered before, and its response holds the
  -- answers of the run and then those of the continuation.
  pub record Finishes (rq : Request Value) (log : Answers Value) (s : BatchState Value)
      : Type 0 where
    pub more : Answers Value
    pub end : BatchState Value
    pub goes : Goes s more end
    pub ready : is_ready_to_respond end ≡ true
    pub rest : Perm (answered_calls more) (waiting s)
    pub response :
        into_response end
        ≡ ok (message (is_batch_request rq) (refusals (calls_of rq) ++ map reply (log ++ more)))

  set_response-same :
      (t t' : BatchState Value) (i : ℕ) (c : MethodCall Value)
      → Waits t i c
      → set_response t i (give c) ≡ some t'
      → answered t i c (give c) ≡ t'
  set_response-same t t' i c w h =
      let k = set_response-answered t i c (give c) w in ground (arith, h, k)

  Goes-Run :
      (rq : Request Value) (log : Answers Value) (s : BatchState Value)
      → Run rq log s
      → (more : Answers Value) (t : BatchState Value) → Goes s more t
      → Run rq (log ++ more) t
  Goes-Run rq log s r more t stop = rw (append-nil log) r
  Goes-Run rq log s r more t (by_next {t = u} g) = yield (Goes-Run rq log s r more u g)
  Goes-Run rq log s r more t (by_answer {more = ms} {t = u} g i c t' w h) =
      subst (λ x. Run rq (log ++ (ms ++ (c, give c) ∷ [])) x) (set_response-same u t i c w h)
        (rw (← append_assoc log ms ((c, give c) ∷ []))
          (answer (Goes-Run rq log s r ms u g) i c (give c) w))

  -- The calls that still wait, and those answered since, are the ones that waited.
  Goes-waiting :
      (s : BatchState Value) (more : Answers Value) (t : BatchState Value)
      → Goes s more t
      → Perm (waiting t ++ answered_calls more) (waiting s)
  Goes-waiting s more t stop = rw append-nil Perm.rfl
  Goes-waiting s more t (by_next {t = u} g) =
      Perm.trans (Perm.append_right (answered_calls more) (next-waiting u))
        (Goes-waiting s more u g)
  Goes-waiting s more t (by_answer {more = ms} {t = u} g i c t' w h) =
      subst (λ x. Perm (waiting x ++ answered_calls (ms ++ (c, give c) ∷ [])) (waiting s))
        (set_response-same u t i c w h)
        (Perm.trans (answered_more ms u i c (give c) w) (Goes-waiting s ms u g))

  -- A state that is ready, some answers later
  abbrev Ready : BatchState Value → Type 0
  Ready s =
      (more : Answers Value) × (t : BatchState Value) × Goes s more t
      × (is_ready_to_respond t ≡ true)

  answer_all :
      (n : ℕ) (s : BatchState Value) (more : Answers Value) (t : BatchState Value)
      → Goes s more t
      → t.to_yield ≡ []
      → length (pending t.requests) ≡ n
      → Ready s
  unfolding is_ready_to_respond
  answer_all zero s more t g e k = elim (find_pending t.requests) [
    | inl done ↦ (more, t, g, rw (e, done))
    | inr (i, c, h) ↦ absurd (omega (arith, length-pending_set t.requests i c h))
  ]
  answer_all (suc n) s more t g e k = elim (find_pending t.requests) [
    | inl done ↦ (more, t, g, rw (e, done))
    | inr (i, c, h) ↦
        answer_all n s (more ++ (c, give c) ∷ []) (answered t i c (give c))
          (by_answer g i c (answered t i c (give c)) h (set_response-answered t i c (give c) h)) e
          (omega (arith, length-pending_set t.requests i c h))
  ]

  yield_all :
      (ys : List (ToYield Value)) (s : BatchState Value) (more : Answers Value)
      (t : BatchState Value)
      → Goes s more t
      → t.to_yield ≡ ys
      → Ready s
  yield_all [] s more t g e = answer_all (length (pending t.requests)) s more t g e refl
  yield_all (y ∷ ys) s more t g e =
      yield_all ys s more (next t).1 (by_next g) (to_yield-next y ys t e)

  -- Every run of a request can go on, by `next` and `set_response` from the state that it has reached and
  -- with any choice of answers, to a state that is ready to respond. That answers just the calls that the
  -- run had not answered, and the response then holds the errors for the invalid calls, the answers of
  -- the run and those of the continuation.
  pub Run-Finishes :
      (rq : Request Value) (log : Answers Value) (s : BatchState Value)
      → Run rq log s
      → Finishes rq log s
  Run-Finishes rq log s r =
      let (more, t, g, done) = yield_all s.to_yield s [] s stop refl in
      let (sent, all) = into_response-Run rq (log ++ more) t (Goes-Run rq log s r more t g) done in
      record {
        more = more;
        end = t;
        goes = g;
        ready = done;
        rest = rw (ready-waiting t done) at (Goes-waiting s more t g);
        response = sent;
      }
