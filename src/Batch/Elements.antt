-- ===== src/Batch/Elements.antt =====
-- The elements of a batch (types/src/jsonrpc/wrapped/batch.rs): which indices `request_by_id`
-- accepts, and that an index keeps its call until that call is answered.
use jsonrpsee.Base.{
  ℕ, zero, suc, List, [], ◌∷◌, ◌++◌, Option, none, some, true, Result, ◌≡◌, ◌≢◌, ◌⊎◌, inl, inr,
  refl, ap, arith, length, get_elem?, set, all_of, is_none, get_elem?-append_left,
  get_elem?-append_end, get_elem?-set_self, get_elem?-set_ne,
}
use jsonrpsee.Types.Errors.{Error}
use jsonrpsee.Types.Request.{MethodCall}
use jsonrpsee.Batch.{
  ToYield, BatchState, BatchInc, BatchElem, next, yield_next, request_by_id, elem_at, set_response,
  answer_elem,
}
use jsonrpsee.Batch.Accounts.{pending, answered, set_response-answered}

module _ {Value : Type 0} where
  -- the element at an index that waits for an answer
  abbrev pub elem_of : ℕ → MethodCall Value → BatchElem Value
  elem_of i c = record { index = i; elem = some c }

  -- An index holds a call that waits for its answer.
  abbrev pub Waits : BatchState Value → ℕ → MethodCall Value → Type 0
  Waits s i c = get_elem? s.requests i ≡ some (some c)

  pub request_by_id-Waits :
      (s : BatchState Value) (i : ℕ) (c : MethodCall Value)
      → Waits s i c
      → request_by_id s i ≡ some (elem_of i c)
  unfolding request_by_id
  request_by_id-Waits s i c h = rw (h, elem_at)

  elem_at-some :
      (i : ℕ) (o : Option (Option (MethodCall Value))) (e : BatchElem Value)
      → elem_at i o ≡ some e
      → (c : MethodCall Value) × (o ≡ some (some c)) × (e ≡ elem_of i c)
  unfolding elem_at
  elem_at-some i none e h = cc
  elem_at-some i (some none) e h = cc
  elem_at-some i (some (some c)) e h = (c, refl, ground arith)

  -- `request_by_id` returns exactly the elements that wait, and `elem` is never `None` in one.
  pub request_by_id-some :
      (s : BatchState Value) (i : ℕ) (e : BatchElem Value)
      → request_by_id s i ≡ some e
      → (c : MethodCall Value) × Waits s i c × (e ≡ elem_of i c)
  unfolding request_by_id
  request_by_id-some s i e h = elem_at-some i (get_elem? s.requests i) e h

  yield_next-Waits :
      (ts : List (ToYield Value)) (s : BatchState Value) (i : ℕ) (c : MethodCall Value)
      → Waits s i c
      → Waits (yield_next ts s).1 i c
  unfolding yield_next
  yield_next-Waits [] s i c h = h
  yield_next-Waits (ToYield.notification n ∷ ts) s i c h = h
  yield_next-Waits (ToYield.request d ∷ ts) s i c h =
      get_elem?-append_left s.requests i (some c) (some d) h

  pub next-Waits :
      (s : BatchState Value) (i : ℕ) (c : MethodCall Value) → Waits s i c → Waits (next s).1 i c
  unfolding next
  next-Waits s i c h = yield_next-Waits s.to_yield s i c h

  yield_next-request :
      (ts : List (ToYield Value)) (s : BatchState Value) (e : BatchElem Value)
      → (yield_next ts s).0 ≡ some (BatchInc.request e)
      → (c : MethodCall Value) × (e ≡ elem_of (length s.requests) c)
        × Waits (yield_next ts s).1 (length s.requests) c
  unfolding yield_next
  yield_next-request [] s e h = cc
  yield_next-request (ToYield.notification n ∷ ts) s e h = cc
  yield_next-request (ToYield.request c ∷ ts) s e h =
      (c, ground arith, get_elem?-append_end s.requests (some c))

  -- The element that `next` returns waits in the state that it leaves.
  pub next-request :
      (s : BatchState Value) (e : BatchElem Value)
      → (next s).0 ≡ some (BatchInc.request e)
      → (c : MethodCall Value) × (e ≡ elem_of (length s.requests) c)
        × Waits (next s).1 (length s.requests) c
  unfolding next
  next-request s e h = yield_next-request s.to_yield s e h

  yield_next-requests :
      (ts : List (ToYield Value)) (s : BatchState Value) (e : BatchElem Value)
      → (yield_next ts s).0 ≡ some (BatchInc.request e)
      → (c : MethodCall Value) × (e ≡ elem_of (length s.requests) c)
        × ((yield_next ts s).1.requests ≡ s.requests ++ some c ∷ [])
  unfolding yield_next
  yield_next-requests [] s e h = cc
  yield_next-requests (ToYield.notification n ∷ ts) s e h = cc
  yield_next-requests (ToYield.request c ∷ ts) s e h = (c, ground arith, refl)

  -- The element that `next` returns is put behind the requests.
  pub next-requests :
      (s : BatchState Value) (e : BatchElem Value)
      → (next s).0 ≡ some (BatchInc.request e)
      → (c : MethodCall Value) × (e ≡ elem_of (length s.requests) c)
        × ((next s).1.requests ≡ s.requests ++ some c ∷ [])
  unfolding next
  next-requests s e h = yield_next-requests s.to_yield s e h

  -- Answering one call leaves the others where they are, and its own index empty for good.
  pub answered-others :
      (s : BatchState Value) (i j : ℕ) (c : MethodCall Value) (r : Result Value (Error Value))
      → i ≢ j
      → get_elem? (answered s i c r).requests j ≡ get_elem? s.requests j
  answered-others s i j c r h = get_elem?-set_ne s.requests i j none h

  -- What `set_response` does at every index: where a call waits it answers it, after which the
  -- index is refused and every other index is as before; elsewhere it fails.
  pub set_response_lem :
      (s : BatchState Value) (i : ℕ) (r : Result Value (Error Value))
      → ((c : MethodCall Value) × Waits s i c
          × (set_response s i r ≡ some (answered s i c r))
          × (request_by_id (answered s i c r) i ≡ none)
          × ((j : ℕ) → i ≢ j → request_by_id (answered s i c r) j ≡ request_by_id s j))
        ⊎ ((request_by_id s i ≡ none) × (set_response s i r ≡ none))
  set_response_lem s i r = go (get_elem? s.requests i) refl
    where
      go :
          (o : Option (Option (MethodCall Value)))
          → get_elem? s.requests i ≡ o
          → ((c : MethodCall Value) × Waits s i c
              × (set_response s i r ≡ some (answered s i c r))
              × (request_by_id (answered s i c r) i ≡ none)
              × ((j : ℕ) → i ≢ j → request_by_id (answered s i c r) j ≡ request_by_id s j))
            ⊎ ((request_by_id s i ≡ none) × (set_response s i r ≡ none))
      go none h =
          inr (unfold request_by_id in rw (h, elem_at), unfold set_response in rw (h, answer_elem))
      go (some none) h =
          inr (unfold request_by_id in rw (h, elem_at), unfold set_response in rw (h, answer_elem))
      go (some (some c)) h = inl (
        c,
        h,
        set_response-answered s i c r h,
        unfold request_by_id in rw (get_elem?-set_self s.requests i (some c) none h, elem_at),
        λ j n. unfold request_by_id in ap (elem_at j) (answered-others s i j c r n),
      )

  -- the number of calls that wait for an answer
  pub length-pending_set :
      (rs : List (Option (MethodCall Value))) (i : ℕ) (c : MethodCall Value)
      → get_elem? rs i ≡ some (some c)
      → suc (length (pending (set rs i none))) ≡ length (pending rs)
  length-pending_set [] i c h = cc
  length-pending_set (none ∷ rs) zero c h = cc
  length-pending_set (some d ∷ rs) zero c h = refl
  length-pending_set (none ∷ rs) (suc i) c h = length-pending_set rs i c h
  length-pending_set (some d ∷ rs) (suc i) c h = ap suc (length-pending_set rs i c h)

  -- Either every call has its answer or there is one that waits.
  pub find_pending :
      (rs : List (Option (MethodCall Value)))
      → (all_of is_none rs ≡ true)
        ⊎ ((i : ℕ) × (c : MethodCall Value) × (get_elem? rs i ≡ some (some c)))
  find_pending [] = inl refl
  find_pending (some c ∷ rs) = inr (0, c, refl)
  find_pending (none ∷ rs) = elim (find_pending rs) [
    | inl done ↦ inl done
    | inr (i, c, h) ↦ inr (suc i, c, h)
  ]
