-- ===== src/Batches/Keys.antt =====
-- `next_event` (types/src/jsonrpc/wrapped/batches.rs) on the keys of the table of batches.
use jsonrpsee.Base.{ℕ, List, none, ◌≢◌, nat_eq}
use jsonrpsee.Base.Dict
use jsonrpsee.Batches
use jsonrpsee.Batches.{BatchesState, Polled}
use jsonrpsee.Batches.Events.{Lists, Outcome, idle, event, next_event-Outcome}
use jsonrpsee.Batches.Sizes.{In-keys, Distinct-keys}

module _ {Value T : Type 0} where
  -- The keys are ids of batches.
  pub keys-Lists : (st : BatchesState Value T) → Lists (Dict.keys st.batches) st
  keys-Lists st j i = let (w, at) = In-keys st.batches j i in (w.0, w.1, at)

  pub keys-Outcome :
      (st : BatchesState Value T)
      → Dict.Unique st.batches
      → Outcome (Dict.keys st.batches) st (Batches.next_event (Dict.keys st.batches) st)
  keys-Outcome st u =
      next_event-Outcome (Dict.keys st.batches) st (keys-Lists st) (Distinct-keys st.batches u)

  -- What is described by `Outcome` is no panic.
  pub Outcome-some :
      (ks : List ℕ) (st : BatchesState Value T) (p : Polled Value T) → Outcome ks st p → p ≢ none
  Outcome-some ks st p (idle st' t q h) = λ no. cc
  Outcome-some ks st p (event mid id b u t i at v ev st' h) = λ no. cc
