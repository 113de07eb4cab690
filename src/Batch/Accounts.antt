-- ===== src/Batch/Accounts.antt =====
-- What a batch owes to its client: the calls of the request, the calls that still wait, and how
-- the operations of types/src/jsonrpc/wrapped/batch.rs move a call from one list to another.
use mathlib.Core.List.{append-nil, append_assoc, perm_middle}
use mathlib.Core.List.Perm
use jsonrpsee.Base.{
  ℕ, zero, suc, List, [], ◌∷◌, ◌++◌, Option, none, some, Bool, true, false, ◌&&◌, Result, err, ◌≡◌,
  refl, sym, ◌∙◌, Perm, arith, get_elem?, set, all_of, is_none,
}
use jsonrpsee.Types.Errors.{Error, error_invalid_request}
use jsonrpsee.Types.Request.{MethodCall, Call, method_call, invalid, Request, v2}
use jsonrpsee.Types.Response.{Output, output_from}
use jsonrpsee.Batch.{
  ToYield, BatchState, add_call, add_calls, from_request, next, yield_next, set_response,
  answer_elem, is_ready_to_respond, is_empty,
}

module _ {Value : Type 0} where
  -- the calls of a request, in order
  abbrev pub calls_of : Request Value → List (Call Value)
  calls_of (Request.single c) = c ∷ []
  calls_of (Request.batch cs) = cs

  abbrev pub is_batch_request : Request Value → Bool
  is_batch_request (Request.single c) = false
  is_batch_request (Request.batch cs) = true

  -- the method calls among them, which each want an answer
  abbrev pub method_calls : List (Call Value) → List (MethodCall Value)
  method_calls [] = []
  method_calls (method_call c ∷ cs) = c ∷ method_calls cs
  method_calls (Call.notification n ∷ cs) = method_calls cs
  method_calls (invalid i ∷ cs) = method_calls cs

  -- the errors that the invalid ones get
  abbrev pub refusals : List (Call Value) → List (Output Value)
  refusals [] = []
  refusals (method_call c ∷ cs) = refusals cs
  refusals (Call.notification n ∷ cs) = refusals cs
  refusals (invalid i ∷ cs) = output_from (err error_invalid_request) i v2 ∷ refusals cs

  abbrev pub unyielded : List (ToYield Value) → List (MethodCall Value)
  unyielded [] = []
  unyielded (ToYield.notification n ∷ ts) = unyielded ts
  unyielded (ToYield.request c ∷ ts) = c ∷ unyielded ts

  abbrev pub pending : List (Option (MethodCall Value)) → List (MethodCall Value)
  pending [] = []
  pending (none ∷ rs) = pending rs
  pending (some c ∷ rs) = c ∷ pending rs

  -- the calls that have no answer yet
  abbrev pub waiting : BatchState Value → List (MethodCall Value)
  waiting s = unyielded s.to_yield ++ pending s.requests

  unyielded-append :
      (ts us : List (ToYield Value)) → unyielded (ts ++ us) ≡ unyielded ts ++ unyielded us
  unyielded-append [] us = refl
  unyielded-append (ToYield.notification n ∷ ts) us = unyielded-append ts us
  unyielded-append (ToYield.request c ∷ ts) us = rw (unyielded-append ts us)

  pending-append :
      (rs qs : List (Option (MethodCall Value))) → pending (rs ++ qs) ≡ pending rs ++ pending qs
  pending-append [] qs = refl
  pending-append (none ∷ rs) qs = pending-append rs qs
  pending-append (some c ∷ rs) qs = rw (pending-append rs qs)

  -- what the loop of `from_iter` has made of a state
  add_calls-unyielded :
      (s : BatchState Value) (cs : List (Call Value))
      → unyielded (add_calls s cs).to_yield ≡ unyielded s.to_yield ++ method_calls cs
  unfolding add_calls
  add_calls-unyielded s [] = sym (append-nil _)
  add_calls-unyielded s (method_call c ∷ cs) =
      add_calls-unyielded (add_call s (method_call c)) cs
      ∙ rw (unyielded-append s.to_yield (ToYield.request c ∷ []), append_assoc)
  add_calls-unyielded s (Call.notification n ∷ cs) =
      add_calls-unyielded (add_call s (Call.notification n)) cs
      ∙ rw (unyielded-append s.to_yield (ToYield.notification n ∷ []), append-nil)
  add_calls-unyielded s (invalid i ∷ cs) = add_calls-unyielded (add_call s (invalid i)) cs

  add_calls-responses :
      (s : BatchState Value) (cs : List (Call Value))
      → (add_calls s cs).responses ≡ s.responses ++ refusals cs
  unfolding add_calls
  add_calls-responses s [] = sym (append-nil _)
  add_calls-responses s (method_call c ∷ cs) = add_calls-responses (add_call s (method_call c)) cs
  add_calls-responses s (Call.notification n ∷ cs) =
      add_calls-responses (add_call s (Call.notification n)) cs
  add_calls-responses s (invalid i ∷ cs) =
      add_calls-responses (add_call s (invalid i)) cs
      ∙ append_assoc s.responses (output_from (err error_invalid_request) i v2 ∷ []) (refusals cs)

  add_calls-rest :
      (s : BatchState Value) (cs : List (Call Value))
      → ((add_calls s cs).requests ≡ s.requests) × ((add_calls s cs).is_batch ≡ s.is_batch)
  unfolding add_calls
  add_calls-rest s [] = (refl, refl)
  add_calls-rest s (method_call c ∷ cs) = add_calls-rest (add_call s (method_call c)) cs
  add_calls-rest s (Call.notification n ∷ cs) = add_calls-rest (add_call s (Call.notification n)) cs
  add_calls-rest s (invalid i ∷ cs) = add_calls-rest (add_call s (invalid i)) cs

  abbrev fresh : Bool → BatchState Value
  fresh b = record { to_yield = []; requests = []; responses = []; is_batch = b }

  -- A fresh state waits for the method calls of its request, has none of them among `requests`, and
  -- has answered the invalid ones.
  pub from_request-account :
      (rq : Request Value)
      → (unyielded (from_request rq).to_yield ≡ method_calls (calls_of rq))
        × ((from_request rq).requests ≡ [])
        × ((from_request rq).responses ≡ refusals (calls_of rq))
        × ((from_request rq).is_batch ≡ is_batch_request rq)
  unfolding from_request
  from_request-account (Request.single c) =
      let (rs, m) = add_calls-rest (fresh false) (c ∷ []) in
      (
        add_calls-unyielded (fresh false) (c ∷ []),
        rs,
        add_calls-responses (fresh false) (c ∷ []),
        m,
      )
  from_request-account (Request.batch cs) =
      let (rs, m) = add_calls-rest (fresh true) cs in
      (add_calls-unyielded (fresh true) cs, rs, add_calls-responses (fresh true) cs, m)

  yield_next-waiting :
      (ts : List (ToYield Value)) (s : BatchState Value)
      → s.to_yield ≡ ts
      → Perm (waiting (yield_next ts s).1) (waiting s)
  unfolding yield_next
  yield_next-waiting [] s e = Perm.rfl
  yield_next-waiting (ToYield.notification n ∷ ts) s e = rw e Perm.rfl
  yield_next-waiting (ToYield.request c ∷ ts) s e =
      rw (e, pending-append s.requests (some c ∷ []))
        (Perm.trans (Perm.append_left (unyielded ts) (perm_middle (pending s.requests) []))
          (rw append-nil (perm_middle (unyielded ts) (pending s.requests))))

  -- `next` moves a call from `to_yield` to `requests`, and loses none.
  pub next-waiting : (s : BatchState Value) → Perm (waiting (next s).1) (waiting s)
  unfolding next
  next-waiting s = yield_next-waiting s.to_yield s refl

  yield_next-rest :
      (ts : List (ToYield Value)) (s : BatchState Value)
      → ((yield_next ts s).1.responses ≡ s.responses) × ((yield_next ts s).1.is_batch ≡ s.is_batch)
  unfolding yield_next
  yield_next-rest [] s = (refl, refl)
  yield_next-rest (ToYield.notification n ∷ ts) s = (refl, refl)
  yield_next-rest (ToYield.request c ∷ ts) s = (refl, refl)

  pub next-rest :
      (s : BatchState Value)
      → ((next s).1.responses ≡ s.responses) × ((next s).1.is_batch ≡ s.is_batch)
  unfolding next
  next-rest s = yield_next-rest s.to_yield s

  pending-set :
      (rs : List (Option (MethodCall Value))) (i : ℕ) (c : MethodCall Value)
      → get_elem? rs i ≡ some (some c)
      → Perm (c ∷ pending (set rs i none)) (pending rs)
  pending-set [] i c h = cc
  pending-set (none ∷ rs) zero c h = cc
  pending-set (some d ∷ rs) zero c h = let e : d ≡ c = ground arith in rw e Perm.rfl
  pending-set (none ∷ rs) (suc i) c h = pending-set rs i c h
  pending-set (some d ∷ rs) (suc i) c h =
      Perm.trans (Perm.swap d c (pending (set rs i none))) (Perm.cons d (pending-set rs i c h))

  -- the state that `set_response` leaves, where the call is there
  abbrev pub answered :
      BatchState Value → ℕ → MethodCall Value → Result Value (Error Value) → BatchState Value
  answered s i c r = record s {
    requests = set s.requests i none;
    responses = s.responses ++ output_from r c.id v2 ∷ [];
  }

  pub set_response-answered :
      (s : BatchState Value) (i : ℕ) (c : MethodCall Value) (r : Result Value (Error Value))
      → get_elem? s.requests i ≡ some (some c)
      → set_response s i r ≡ some (answered s i c r)
  unfolding set_response
  set_response-answered s i c r h = rw (h, answer_elem)

  pub answered-waiting :
      (s : BatchState Value) (i : ℕ) (c : MethodCall Value) (r : Result Value (Error Value))
      → get_elem? s.requests i ≡ some (some c)
      → Perm (c ∷ waiting (answered s i c r)) (waiting s)
  answered-waiting s i c r h =
      Perm.trans (Perm.symm (perm_middle (unyielded s.to_yield) (pending (set s.requests i none))))
        (Perm.append_left (unyielded s.to_yield) (pending-set s.requests i c h))

  all_none-pending :
      (rs : List (Option (MethodCall Value))) → all_of is_none rs ≡ true → pending rs ≡ []
  all_none-pending [] h = refl
  all_none-pending (none ∷ rs) h = all_none-pending rs h
  all_none-pending (some c ∷ rs) h = cc

  -- A state that is ready to respond waits for no call.
  pub ready-waiting : (s : BatchState Value) → is_ready_to_respond s ≡ true → waiting s ≡ []
  unfolding is_ready_to_respond
  ready-waiting s h = go s.to_yield refl h
    where
      go :
          (ts : List (ToYield Value))
          → s.to_yield ≡ ts
          → (is_empty ts && all_of is_none s.requests) ≡ true
          → waiting s ≡ []
      go [] e k = rw (e, all_none-pending s.requests k)
      go (t ∷ ts) e k = cc
