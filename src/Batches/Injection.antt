-- ===== src/Batches/Injection.antt =====
-- `inject` (types/src/jsonrpc/wrapped/batches.rs) finds a vacant id, also where ids have wrapped.
use jsonrpsee.Base.{
  ℕ, zero, suc, ◌+◌, ◌%◌, ◌≤◌, ◌<◌, Option, none, some, true, ◌≡◌, ◌≢◌, inl, inr, refl,
  if◌then◌else◌, nat_eq, ◌==◌, arith, Bool-cases, beq_ne, length, Option-cases,
}
use jsonrpsee.Base.Dict
use jsonrpsee.Base.Dict.{Dict}
use jsonrpsee.Base.Dict.Laws.{get-insert, get-remove}
use jsonrpsee.Base.Dict.Counting.{length-remove_lt}
use jsonrpsee.Types.Request.{Request}
use jsonrpsee.Batch
use jsonrpsee.Batch.{BatchState}
use jsonrpsee.Batches.{BatchesState, u64_mod, inject, inject_loop}

-- Offsets that are less than 2^64 apart are different ids.
offsets_apart : (n i j : ℕ) → i < j → j < i + u64_mod → ((n + i) % u64_mod) ≢ ((n + j) % u64_mod)
offsets_apart n i j h k = omega arith

step_id : (n i : ℕ) → ((n + i) % u64_mod + 1) % u64_mod ≡ (n + suc i) % u64_mod
step_id n i = omega arith

contains-some {κ} :
    {V : Type κ} (d : Dict ℕ V) (k : ℕ)
    → Dict.contains d k ≡ true
    → (v : V) × (Dict.get d k ≡ some v)
contains-some d k h = elim (Option-cases (Dict.get d k)) [ inl e ↦ cc (e) | inr found ↦ found ]

contains-remove {κ} :
    {V : Type κ} (d : Dict ℕ V) (k j : ℕ)
    → k ≢ j
    → Dict.contains d j ≡ true
    → Dict.contains (Dict.remove d k) j ≡ true
contains-remove d k j h c = rw (get-remove d k j, beq_ne k j h) c

module _ {Value T : Type 0} where
  -- The batch stands at an id that was vacant, and all else is as before.
  pub record Injected (b : BatchState Value) (u : T) (st st' : BatchesState Value T) : Type 0 where
    pub id : ℕ
    pub vacant : Dict.get st.batches id ≡ none
    pub entries :
        (j : ℕ) → Dict.get st'.batches j ≡ (if id == j then some (b, u) else Dict.get st.batches j)
    pub advanced : st'.next_batch_id ≡ (id + 1) % u64_mod

  abbrev Found :
      BatchState Value → T → BatchesState Value T → Option (BatchesState Value T) → Type 0
  Found b u st r = (st' : BatchesState Value T) × (r ≡ some st') × Injected b u st st'

  -- `d` holds the ids of the table that the fuel can still reach, and is shorter than the fuel.
  inject_loop-Found :
      (fuel i n : ℕ) (b : BatchState Value) (u : T) (st : BatchesState Value T)
      (d : Dict ℕ (BatchState Value × T))
      → st.next_batch_id ≡ (n + i) % u64_mod
      → i + fuel ≤ u64_mod
      → length d < fuel
      → ((j : ℕ)
          → i ≤ j
          → j < i + fuel
          → Dict.contains st.batches ((n + j) % u64_mod) ≡ true
          → Dict.contains d ((n + j) % u64_mod) ≡ true)
      → Found b u st (inject_loop fuel b u st)
  unfolding inject_loop
  inject_loop-Found zero i n b u st d e m l cover = absurd (omega arith)
  inject_loop-Found (suc fuel) i n b u st d e m l cover =
      elim (Bool-cases (Dict.contains st.batches st.next_batch_id)) [
        | inl taken ↦
            let (v, at) =
              contains-some d ((n + i) % u64_mod)
                (cover i (omega arith) (omega arith) (rw (← e) taken)) in
            let rest = Dict.remove d ((n + i) % u64_mod) in
            let (st', found, inj) =
              inject_loop-Found fuel (suc i) n b u
                (record st { next_batch_id = (st.next_batch_id + 1) % u64_mod }) rest
                (rw e (step_id n i)) (omega arith)
                (omega (arith, length-remove_lt d ((n + i) % u64_mod) v at))
                (λ j p q c.
                  contains-remove d ((n + i) % u64_mod) ((n + j) % u64_mod)
                    (offsets_apart n i j (omega arith) (omega arith))
                    (cover j (omega arith) (omega arith) c)) in
            (
              st',
              rw taken found,
              record {
                id = inj.id;
                vacant = inj.vacant;
                entries = inj.entries;
                advanced = inj.advanced;
              },
            )
        | inr free ↦ (
          _,
          rw free refl,
          record {
            id = st.next_batch_id;
            vacant = ground arith;
            entries = λ j. get-insert st.batches st.next_batch_id j (b, u);
            advanced = refl;
          },
        )
      ]

  -- While fewer than 2^64 batches are there, `inject` puts the batch of the request at a vacant id,
  -- and changes no other entry.
  pub inject-Injected :
      (rq : Request Value) (u : T) (st : BatchesState Value T)
      → st.next_batch_id < u64_mod
      → length st.batches < u64_mod
      → (st' : BatchesState Value T) × (inject rq u st ≡ some st')
        × Injected (Batch.from_request rq) u st st'
  unfolding inject
  inject-Injected rq u st h l =
      inject_loop-Found (suc (length st.batches)) 0 st.next_batch_id (Batch.from_request rq) u st
        st.batches (omega arith) (omega arith) (omega arith) (λ j p q c. c)
