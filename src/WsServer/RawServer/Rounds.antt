-- ===== src/WsServer/RawServer/Rounds.antt =====
-- The rounds of the loop in `next_event` of ws-server/src/raw/core.rs: they do not panic, and after
-- the end of a connection nothing refers to it.
use jsonrpsee.Base.{
  ℕ, ◌<◌, List, Option, none, some, Bool, false, ◌≡◌, ◌≢◌, refl, sym, ap, ◌∙◌, Eq, ◌==◌, nat_eq,
  arith, Option-cases, Bool-cases, inl, inr, length, beq_refl,
}
use mathlib.Core.Option
use jsonrpsee.Base.Dict
use jsonrpsee.Base.Dict.{Dict}
use jsonrpsee.Base.Dict.Laws.{get-map_values, get-remove}
use jsonrpsee.Base.Dict.Counting.{count_values, count_values-remove}
use jsonrpsee.Types.Response.{Response}
use jsonrpsee.Batch.{BatchState}
use jsonrpsee.Batches
use jsonrpsee.Batches.{
  BatchesState, BatchesEvent, BatchesElem, Polled, elem_id, u64_mod, map_params,
}
use jsonrpsee.Batches.Events.{Lists, Distinct, next_event-Outcome}
use jsonrpsee.Batches.Requests.{next_event-request}
use jsonrpsee.Batches.Sizes.{Distinct-keys}
use jsonrpsee.Batches.Keys.{keys-Lists, Outcome-some}
use jsonrpsee.Batches.Injection.{inject-Injected}
use jsonrpsee.WsServer.Transport.{TransportServerEvent}
use jsonrpsee.WsServer.RawServer.{
  RawServer, SubscriptionState, Turn, returned, again, pull, panic, is_on, forget, batch_turn,
  after_batches, send_ready, show_request, raw_turn, injected,
}
use jsonrpsee.WsServer.RawServer.Keys.{get-remove_keys_on}
use jsonrpsee.WsServer.RawServer.Counts.{HasCounts, After}

forget-ne : (id : ℕ) (u : Option ℕ) → forget id u ≢ some id
forget-ne id none = λ h. cc
forget-ne id (some r) = λ h. elim (Bool-cases (r == id)) [
  | inl q ↦ let no : none ≡ some id = rw q at h in cc
  | inr q ↦
      let same : some r ≡ some id = rw q at h in
      let eq : r ≡ id = cc in let wrong : (id == id) ≡ false = rw eq at q in cc (beq_refl id)
]

abbrev param_of : {Value : Type 0} → Option (BatchState Value × Option ℕ) → Option ℕ
param_of none = none
param_of (some (b, u)) = u

forgotten_batch :
    {Value : Type 0} (id : ℕ) (o : Option (BatchState Value × Option ℕ)) (b : BatchState Value)
    → Option.map {B = BatchState Value × Option ℕ}
        (λ (entry : BatchState Value × Option ℕ). (entry.0, forget id entry.1))
        o
      ≢ some (b, some id)
forgotten_batch id none b = λ h. cc
forgotten_batch id (some (b', u)) b = λ h. forget-ne id u (ap param_of h)

-- Nobody passes a test that none is counted for.
count-zero :
    {Key : Type 0} ⦃e : Eq Key⦄ (test : SubscriptionState → Bool) (d : Dict Key SubscriptionState)
    (k : Key) (sub : SubscriptionState)
    → Dict.Unique d
    → Dict.get d k ≡ some sub
    → count_values test d ≡ 0
    → test sub ≡ false
count-zero test d k sub u at zero = ground (arith, count_values-remove test d k sub at u)

module _ {Value Key : Type 0} ⦃e : Eq Key⦄ where
  -- The half of a round did not panic.
  abbrev pub Alive : Turn Value Key → Type 0
  Alive (returned ev s) = Unit
  Alive (again s) = Unit
  Alive (pull s) = Unit
  Alive panic = ⊥

  send_ready-Alive :
      (r : Response Value) (id : ℕ) (s : RawServer Value Key) → Alive (send_ready r id s)
  unfolding send_ready
  send_ready-Alive r id s = elim (Bool-cases (Dict.contains s.num_subscriptions id)) [
    | inl c ↦ rw c tt
    | inr c ↦ rw c tt
  ]

  after_batches-Alive :
      (ks : List ℕ) (s : RawServer Value Key) (p : Polled Value (Option ℕ))
      → Lists ks s.batches
      → Distinct ks
      → Batches.next_event ks s.batches ≡ p
      → p ≢ none
      → Alive (after_batches p s)
  unfolding after_batches show_request
  after_batches-Alive ks s none l d q some_p = elim (some_p refl) [ ]
  after_batches-Alive ks s (some (none, b)) l d q some_p = tt
  after_batches-Alive ks s (some (some (BatchesEvent.notification n u), b)) l d q some_p = tt
  after_batches-Alive ks s (some (some (BatchesEvent.request x), b)) l d q some_p =
      rw (next_event-request ks s.batches b x l d q) tt
  after_batches-Alive ks s (some (some (BatchesEvent.ready_to_send r (some id)), b)) l d q some_p =
      send_ready-Alive r id (record s { batches = b })
  after_batches-Alive ks s (some (some (BatchesEvent.ready_to_send r none), b)) l d q some_p = tt

  -- The first half of a round does not panic, in whatever order the batches are visited, when the
  -- order lists ids of batches and each one once.
  pub batch_turn-Alive :
      (ks : List ℕ) (s : RawServer Value Key)
      → Lists ks s.batches
      → Distinct ks
      → Alive (batch_turn ks s)
  unfolding batch_turn
  batch_turn-Alive ks s l d =
      after_batches-Alive ks s (Batches.next_event ks s.batches) l d refl
        (Outcome-some ks s.batches _ (next_event-Outcome ks s.batches l d))

  -- So it does not panic on the keys of the table of batches.
  pub batch_turn-keys-Alive :
      (s : RawServer Value Key)
      → Dict.Unique s.batches.batches
      → Alive (batch_turn (Dict.keys s.batches.batches) s)
  batch_turn-keys-Alive s u =
      batch_turn-Alive (Dict.keys s.batches.batches) s (keys-Lists s.batches)
        (Distinct-keys s.batches.batches u)

  -- The second half of a round does not panic while fewer than 2^64 batches are there.
  pub raw_turn-Alive :
      (ev : TransportServerEvent Value) (s : RawServer Value Key)
      → s.batches.next_batch_id < u64_mod
      → length s.batches.batches < u64_mod
      → Alive (raw_turn ev s)
  unfolding raw_turn injected
  raw_turn-Alive (TransportServerEvent.request id rq) s h l =
      let (b, done, inj) = inject-Injected rq (some id) s.batches h l in rw done tt
  raw_turn-Alive (TransportServerEvent.closed id) s h l =
      elim (Bool-cases (Dict.contains s.num_subscriptions id)) [ inl c ↦ rw c tt | inr c ↦ rw c tt ]

  -- Nothing in the server refers to the connection.
  pub record Forgotten (id : ℕ) (s : RawServer Value Key) : Type 0 where
    pub batches : (j : ℕ) (b : BatchState Value) → Dict.get s.batches.batches j ≢ some (b, some id)
    pub subscriptions :
        (k : Key) (sub : SubscriptionState)
        → Dict.get s.subscriptions k ≡ some sub
        → is_on id sub ≡ false
    pub count : Dict.get s.num_subscriptions id ≡ none

  -- After the event that a connection is closed, nothing in the server refers to it: no batch, no
  -- subscription and no count. This needs the counts to be right before.
  pub raw_turn-Forgotten :
      (id : ℕ) (s : RawServer Value Key)
      → HasCounts s
      → After (Forgotten id) (raw_turn (TransportServerEvent.closed id) s)
  unfolding raw_turn map_params
  raw_turn-Forgotten id s a = elim (Option-cases (Dict.get s.num_subscriptions id)) [
    | inr (n, c) ↦ rw c (record {
      batches = λ j b. gone j b;
      subscriptions = λ k sub at. (get-remove_keys_on id s.subscriptions k sub a.unique at).1;
      count = get-remove s.num_subscriptions id id ∙ rw (beq_refl id) refl;
    })
    | inl c ↦ rw c (record {
      batches = λ j b. gone j b;
      subscriptions = λ k sub at.
          count-zero (is_on id) s.subscriptions k sub a.unique at
            (let zero = a.counted id in sym (rw c at zero));
      count = c;
    })
  ]
    where
      gone :
          (j : ℕ) (b : BatchState Value)
          → Dict.get (map_params (forget id) s.batches).batches j ≢ some (b, some id)
      gone j b h = forgotten_batch id (Dict.get s.batches.batches j) b (
          sym (
            get-map_values (λ (entry : BatchState Value × Option ℕ). (entry.0, forget id entry.1))
              s.batches.batches j)
          ∙ h)
