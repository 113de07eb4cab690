-- ===== src/WsServer/RawServer/Counts.antt =====
-- `num_subscriptions` counts the subscriptions of each connection, after every operation of
-- ws-server/src/raw/core.rs.
use jsonrpsee.Base.{
  ℕ, suc, ◌+◌, ◌-◌, ◌<◌, List, [], Option, none, some, not, ◌≡◌, inl, inr, refl, sym, ◌∙◌,
  if◌then◌else◌, Eq, ◌==◌, nat_eq, arith, Option-cases, Bool-cases, leb,
}
use jsonrpsee.Base.Dict
use jsonrpsee.Base.Dict.{Dict}
use jsonrpsee.Base.Dict.Laws.{
  get-remove, get-insert, remove-Unique, insert-Unique, map_values-Unique,
}
use jsonrpsee.Base.Dict.Counting.{
  count_values, weight, count_values-remove, count_values-insert, count_values-map_values,
}
use jsonrpsee.Types.Response.{Response}
use jsonrpsee.Batches
use jsonrpsee.Batches.{BatchesState, BatchesElem, BatchesElemId, BatchesEvent}
use jsonrpsee.WsServer.Transport
use jsonrpsee.WsServer.Transport.{TransportServerEvent}
use jsonrpsee.WsServer.RawServer.{
  RawServer, SubscriptionState, Turn, returned, again, pull, panic, is_on, make_ready, keys_on,
  remove_keys, count_up, batch_turn, after_batches, send_ready, show_request, raw_turn, injected,
  close, close_with, close_count,
}
use jsonrpsee.WsServer.RawServer.Keys.{count-remove_keys_on, remove_keys-Unique}

abbrev pub or_zero : Option ℕ → ℕ
or_zero none = 0
or_zero (some n) = n

get-count_up :
    (id r : ℕ) (d : Dict ℕ ℕ)
    → Dict.get (count_up id d) r
      ≡ (if id == r then some (or_zero (Dict.get d id) + 1) else Dict.get d r)
unfolding count_up
get-count_up id r d = elim (Option-cases (Dict.get d id)) [
  | inl e ↦ rw (e, count_up, get-insert d id r 1) (ground arith)
  | inr (n, e) ↦ rw (e, count_up, get-insert d id r (n + 1)) refl
]

module _ {Key : Type 0} ⦃e : Eq Key⦄ where
  -- The two tables agree, and no count is zero (`NonZeroUsize`).
  pub record Agree (subs : Dict Key SubscriptionState) (num : Dict ℕ ℕ) : Type 0 where
    pub unique : Dict.Unique subs
    pub counted : (r : ℕ) → or_zero (Dict.get num r) ≡ count_values (is_on r) subs
    pub positive : (r n : ℕ) → Dict.get num r ≡ some n → 0 < n

  pub Agree-empty : Agree [] []
  unfolding Dict.get count_values
  Agree-empty = record { unique = tt; counted = λ r. refl; positive = λ r n h. cc }

  Agree-make_ready :
      (id : ℕ) (subs : Dict Key SubscriptionState) (num : Dict ℕ ℕ)
      → Agree subs num
      → Agree (Dict.map_values (make_ready id) subs) num
  Agree-make_ready id subs num a = record {
    unique = map_values-Unique (make_ready id) subs a.unique;
    counted = λ r.
        a.counted r
        ∙ sym (count_values-map_values (is_on r) (make_ready id) subs (λ s. ground arith));
    positive = a.positive;
  }

  Agree-remove_keys :
      (id : ℕ) (subs : Dict Key SubscriptionState) (num : Dict ℕ ℕ)
      → Agree subs num
      → Agree (remove_keys (keys_on id subs) subs) (Dict.remove num id)
  Agree-remove_keys id subs num a = record {
    unique = remove_keys-Unique (keys_on id subs) subs a.unique;
    counted = λ r.
        rw (get-remove num id r, count-remove_keys_on id r subs a.unique)
          (ground (arith, a.counted r));
    positive = λ r n h. ground (arith, get-remove num id r, a.positive r n);
  }

  pub Agree-insert :
      (k : Key) (s : SubscriptionState) (subs : Dict Key SubscriptionState) (num : Dict ℕ ℕ)
      → Dict.get subs k ≡ none
      → Agree subs num
      → Agree (Dict.insert subs k s) (count_up s.raw_id num)
  Agree-insert k s subs num vacant a = record {
    unique = insert-Unique subs k s a.unique;
    counted = λ r.
        rw (count_values-insert (is_on r) subs k s vacant, get-count_up s.raw_id r num)
          (ground (arith, a.counted r));
    positive = λ r n h. ground (arith, get-count_up s.raw_id r num, a.positive r n);
  }

  -- the number of a connection with a subscription
  counted-some :
      (k : Key) (s : SubscriptionState) (subs : Dict Key SubscriptionState) (num : Dict ℕ ℕ)
      → Dict.get subs k ≡ some s
      → Agree subs num
      → (n : ℕ) × (Dict.get num s.raw_id ≡ some n)
        × (n ≡ suc (count_values (is_on s.raw_id) (Dict.remove subs k)))
  counted-some k s subs num at a =
      let one : weight (is_on s.raw_id s) + count_values (is_on s.raw_id) (Dict.remove subs k)
          ≡ count_values (is_on s.raw_id) subs =
        count_values-remove (is_on s.raw_id) subs k s at a.unique in
      elim (Option-cases (Dict.get num s.raw_id)) [
        | inl e ↦ absurd (ground (arith, one, a.counted s.raw_id, e))
        | inr (n, e) ↦ (n, e, ground (arith, one, a.counted s.raw_id, e))
      ]

  -- the tables after `close`
  Agree-close :
      (k : Key) (s : SubscriptionState) (n : ℕ) (subs : Dict Key SubscriptionState)
      (num num' : Dict ℕ ℕ)
      → Dict.get subs k ≡ some s
      → Dict.get num s.raw_id ≡ some n
      → ((r : ℕ)
          → Dict.get num' r
            ≡ (if s.raw_id == r then (if leb 2 n then some (n - 1) else none) else Dict.get num r))
      → Agree subs num
      → Agree (Dict.remove subs k) num'
  Agree-close k s n subs num num' at has law a = record {
    unique = remove-Unique subs k a.unique;
    counted = λ r. ground (
      arith,
      law r,
      a.counted r,
      a.positive r n,
      count_values-remove (is_on r) subs k s at a.unique,
    );
    positive = λ r m h. ground (arith, law r, a.positive r m, a.positive r n);
  }

module _ {Value Key : Type 0} ⦃e : Eq Key⦄ where
  abbrev pub HasCounts : RawServer Value Key → Type 0
  HasCounts s = Agree s.subscriptions s.num_subscriptions

  -- What holds of the state after half a round, unless it panics.
  abbrev pub After : (RawServer Value Key → Type 0) → Turn Value Key → Type 0
  After P (returned ev s) = P s
  After P (again s) = P s
  After P (pull s) = P s
  After P panic = Unit

  send_ready-HasCounts :
      (r : Response Value) (id : ℕ) (s : RawServer Value Key)
      → HasCounts s
      → After HasCounts (send_ready r id s)
  unfolding send_ready
  send_ready-HasCounts r id s a = elim (Bool-cases (Dict.contains s.num_subscriptions id)) [
    | inl c ↦ rw c (Agree-make_ready id s.subscriptions s.num_subscriptions a)
    | inr c ↦ rw c a
  ]

  show_request-HasCounts :
      (o : Option (BatchesElem Value (Option ℕ))) (s : RawServer Value Key)
      → HasCounts s
      → After HasCounts (show_request o s)
  unfolding show_request
  show_request-HasCounts none s a = tt
  show_request-HasCounts (some x) s a = a

  after_batches-HasCounts :
      (p : Batches.Polled Value (Option ℕ)) (s : RawServer Value Key)
      → HasCounts s
      → After HasCounts (after_batches p s)
  unfolding after_batches
  after_batches-HasCounts none s a = tt
  after_batches-HasCounts (some (none, b)) s a = a
  after_batches-HasCounts (some (some (BatchesEvent.notification n u), b)) s a = a
  after_batches-HasCounts (some (some (BatchesEvent.request x), b)) s a =
      show_request-HasCounts _ (record s { batches = b }) a
  after_batches-HasCounts (some (some (BatchesEvent.ready_to_send r (some id)), b)) s a =
      send_ready-HasCounts r id (record s { batches = b }) a
  after_batches-HasCounts (some (some (BatchesEvent.ready_to_send r none), b)) s a = a

  -- The first half of a round keeps the counts.
  pub batch_turn-HasCounts :
      (ks : List ℕ) (s : RawServer Value Key) → HasCounts s → After HasCounts (batch_turn ks s)
  unfolding batch_turn
  batch_turn-HasCounts ks s a = after_batches-HasCounts (Batches.next_event ks s.batches) s a

  injected-HasCounts :
      (o : Option (BatchesState Value (Option ℕ))) (s : RawServer Value Key)
      → HasCounts s
      → After HasCounts (injected o s)
  unfolding injected
  injected-HasCounts none s a = tt
  injected-HasCounts (some b) s a = a

  -- The second half of a round keeps the counts: a connection that closes takes its subscriptions
  -- and its count with it.
  pub raw_turn-HasCounts :
      (ev : TransportServerEvent Value) (s : RawServer Value Key)
      → HasCounts s
      → After HasCounts (raw_turn ev s)
  unfolding raw_turn
  raw_turn-HasCounts (TransportServerEvent.request id rq) s a = injected-HasCounts _ s a
  raw_turn-HasCounts (TransportServerEvent.closed id) s a =
      elim (Bool-cases (Dict.contains s.num_subscriptions id)) [
        | inl c ↦ rw c (Agree-remove_keys id s.subscriptions s.num_subscriptions a)
        | inr c ↦ rw c a
      ]

  close_count-HasCounts :
      (k : Key) (sub : SubscriptionState) (n : ℕ) (s : RawServer Value Key)
      → HasCounts s
      → Dict.get s.subscriptions k ≡ some sub
      → Dict.get s.num_subscriptions sub.raw_id ≡ some n
      → (s' : RawServer Value Key) × (close_count sub
            (some n)
            (record s { subscriptions = Dict.remove s.subscriptions k })
          ≡ some s')
        × HasCounts s'
  unfolding close_count
  close_count-HasCounts k sub n s a at has = elim (Bool-cases (leb 2 n)) [
    | inl more ↦ (
      record s {
        subscriptions = Dict.remove s.subscriptions k;
        num_subscriptions = Dict.insert s.num_subscriptions sub.raw_id (n - 1);
      },
      rw more refl,
      Agree-close k sub n s.subscriptions s.num_subscriptions
          (Dict.insert s.num_subscriptions sub.raw_id (n - 1)) at has
          (λ r. rw (get-insert s.num_subscriptions sub.raw_id r (n - 1), more)) a,
    )
    | inr last ↦ (
      record s {
        subscriptions = Dict.remove s.subscriptions k;
        num_subscriptions = Dict.remove s.num_subscriptions sub.raw_id;
        raw = if not sub.pending then (Transport.finish sub.raw_id none s.raw).1 else s.raw;
      },
      rw last refl,
      Agree-close k sub n s.subscriptions s.num_subscriptions
          (Dict.remove s.num_subscriptions sub.raw_id) at has
          (λ r. rw (get-remove s.num_subscriptions sub.raw_id r, last)) a,
    )
  ]

  -- `close` on a subscription that is there does not reach its `unreachable!`, and keeps the counts.
  pub close-HasCounts :
      (k : Key) (sub : SubscriptionState) (s : RawServer Value Key)
      → HasCounts s
      → Dict.get s.subscriptions k ≡ some sub
      → (s' : RawServer Value Key) × (close k s ≡ some s') × HasCounts s'
  unfolding close close_with
  close-HasCounts k sub s a at =
      let (n, has, count) = counted-some k sub s.subscriptions s.num_subscriptions at a in
      let (s', done, b) = close_count-HasCounts k sub n s a at has in
      (s', rw (at, close_with, has) done, b)
