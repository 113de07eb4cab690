-- ===== src/WsServer/RawServer/Subscribe.antt =====
-- `into_subscription` and `push` (ws-server/src/raw/core.rs).
use mathlib.Core.List.{append-nil}
use jsonrpsee.Base.{
  ℕ, ◌++◌, List, [], ◌∷◌, Option, none, some, true, false, Result, ok, err, ◌≡◌, ◌⊎◌, inl, inr,
  refl, ap, if◌then◌else◌, Eq, ◌==◌, nat_eq, arith, String, Option-cases, Bool-cases,
}
use jsonrpsee.Base.Dict
use jsonrpsee.Base.Dict.{Dict}
use jsonrpsee.Base.Dict.Laws.{get-insert}
use jsonrpsee.Types.Request.{MethodCall}
use jsonrpsee.Batches
use jsonrpsee.Batches.{BatchesState, BatchesElem, BatchesElemId, elem_id}
use jsonrpsee.Batches.Requests.{set_response-Answered, request_by_id-Waits}
use jsonrpsee.WsServer.Transport
use jsonrpsee.WsServer.Transport.{WsTransportServer, send}
use jsonrpsee.WsServer.Transport.Delivery.{delivery, send_response-delivery}
use jsonrpsee.WsServer.RawServer.{
  RawServer, SubscriptionState, choose_key, into_subscription, into_subscription_on, subscribe_with,
  subscribed, IntoSubscriptionErr, not_supported, push, push_with, push_message,
}
use jsonrpsee.WsServer.RawServer.Counts.{HasCounts, Agree-insert}

module _ {Key : Type 0} ⦃e : Eq Key⦄ where
  choose_key-vacant :
      (ks : List Key) (d : Dict Key SubscriptionState) (k : Key)
      → choose_key ks d ≡ some k
      → Dict.get d k ≡ none
  unfolding choose_key
  choose_key-vacant [] d k h = cc
  choose_key-vacant (j ∷ ks) d k h = ground (arith, choose_key-vacant ks d k)

module _ {Value : Type 0} where
  elem-request_by_id :
      (x : BatchesElem Value (Option ℕ)) (st : BatchesState Value (Option ℕ))
      → Batches.request_by_id (elem_id x) st ≡ some x
      → (c : MethodCall Value) × (x.inner.elem ≡ some c)
  elem-request_by_id x st h =
      let (b, u, c, at, waits, shape) = request_by_id-Waits (elem_id x) st x h in
      (c, ap (λ (y : BatchesElem Value (Option ℕ)). y.inner.elem) shape)

module _ {Value Key : Type 0} ⦃e : Eq Key⦄ where
  -- What a new subscription changes.
  pub record Subscribed (encode : Key → Value) (k : Key) (id : ℕ) (x : BatchesElem Value (Option ℕ))
      (s s' : RawServer Value Key) : Type 0 where
    pub call : MethodCall Value
    pub elem : x.inner.elem ≡ some call
    pub vacant : Dict.get s.subscriptions k ≡ none
    pub added :
        (j : Key)
        → Dict.get s'.subscriptions j ≡ (
            if k == j
            then some (record { raw_id = id; method = call.method; pending = true })
            else Dict.get s.subscriptions j)
    pub told : Batches.set_response (elem_id x) (ok (encode k)) s.batches ≡ some s'.batches
    pub raw : s'.raw ≡ s.raw
    pub counts : HasCounts s → HasCounts s'

  subscribed-Subscribed :
      (encode : Key → Value) (k : Key) (id : ℕ) (x : BatchesElem Value (Option ℕ))
      (c : MethodCall Value) (o : Option (BatchesState Value (Option ℕ))) (s : RawServer Value Key)
      → x.inner.elem ≡ some c
      → Dict.get s.subscriptions k ≡ none
      → Batches.set_response (elem_id x) (ok (encode k)) s.batches ≡ o
      → (subscribed k id c o s ≡ none)
        ⊎ ((s' : RawServer Value Key) × (subscribed k id c o s ≡ some (ok k, s'))
            × Subscribed encode k id x s s')
  unfolding subscribed
  subscribed-Subscribed encode k id x c none s el v h = inl refl
  subscribed-Subscribed encode k id x c (some b) s el v h = inr (
    _,
    refl,
    record {
      call = c;
      elem = el;
      vacant = v;
      added = λ j.
          get-insert s.subscriptions k j
            (record { raw_id = id; method = c.method; pending = true });
      told = h;
      raw = refl;
      counts = λ a.
          Agree-insert k (record { raw_id = id; method = c.method; pending = true }) s.subscriptions
            s.num_subscriptions v a;
    },
  )

  -- The results of `into_subscription`.
  pub data SubscribeResult (encode : Key → Value) (randoms : List Key)
      (x : BatchesElem Value (Option ℕ)) (s : RawServer Value Key)
      (r : Option (Result Key IntoSubscriptionErr × RawServer Value Key)) : Type 0 where
    closed :
        x.user_param ≡ none
        → r ≡ some (err IntoSubscriptionErr.closed, s)
        → SubscribeResult encode randoms x s r
    unsupported :
        (id : ℕ)
        → x.user_param ≡ some id
        → Dict.contains s.raw.to_connections id ≡ false
        → r ≡ some (err not_supported, s)
        → SubscribeResult encode randoms x s r
    accepted :
        (id : ℕ) (k : Key) (s' : RawServer Value Key)
        → x.user_param ≡ some id
        → Dict.contains s.raw.to_connections id ≡ true
        → choose_key randoms s.subscriptions ≡ some k
        → Subscribed encode k id x s s'
        → r ≡ some (ok k, s')
        → SubscribeResult encode randoms x s r
    drawing :
        choose_key randoms s.subscriptions ≡ none → r ≡ none → SubscribeResult encode randoms x s r

  accept :
      (encode : Key → Value) (randoms : List Key) (x : BatchesElem Value (Option ℕ))
      (s : RawServer Value Key) (id : ℕ) (k : Key)
      → Batches.request_by_id (elem_id x) s.batches ≡ some x
      → x.user_param ≡ some id
      → Dict.contains s.raw.to_connections id ≡ true
      → choose_key randoms s.subscriptions ≡ some k
      → SubscribeResult encode randoms x s (subscribe_with encode (some k) id x x.inner.elem s)
  unfolding subscribe_with subscribed
  accept encode randoms x s id k h u c v =
      let (call, el) = elem-request_by_id x s.batches h in
      let (b, told, after) = set_response-Answered (elem_id x) (ok (encode k)) s.batches x h in
      elim (subscribed-Subscribed encode k id x call (some b) s el
        (choose_key-vacant randoms s.subscriptions k v) told) [
          | inl e ↦ cc
          | inr (s', e, sub) ↦ accepted id k s' u c v sub (rw (el, subscribe_with, told) e)
        ]

  into_subscription_on-SubscribeResult :
      (encode : Key → Value) (randoms : List Key) (x : BatchesElem Value (Option ℕ))
      (s : RawServer Value Key) (o : Option ℕ)
      → Batches.request_by_id (elem_id x) s.batches ≡ some x
      → x.user_param ≡ o
      → SubscribeResult encode randoms x s (into_subscription_on encode randoms o x s)
  unfolding into_subscription_on Transport.supports_resuming
  into_subscription_on-SubscribeResult encode randoms x s none h u = closed u refl
  into_subscription_on-SubscribeResult encode randoms x s (some id) h u =
      elim (Bool-cases (Dict.contains s.raw.to_connections id)) [
        | inr c ↦ unsupported id u c (rw c refl)
        | inl c ↦ elim (Option-cases (choose_key randoms s.subscriptions)) [
          | inl v ↦ drawing v (rw (c, v) (unfold subscribe_with in refl))
          | inr (k, v) ↦ rw (c, v) (accept encode randoms x s id k h u c v)
        ]
      ]

  -- `into_subscription` on a request that waits: which of its results it returns, when, and with
  -- what state.
  pub into_subscription-SubscribeResult :
      (encode : Key → Value) (randoms : List Key) (x : BatchesElem Value (Option ℕ))
      (s : RawServer Value Key)
      → Batches.request_by_id (elem_id x) s.batches ≡ some x
      → SubscribeResult encode randoms x s (into_subscription encode randoms x s)
  unfolding into_subscription
  into_subscription-SubscribeResult encode randoms x s h =
      into_subscription_on-SubscribeResult encode randoms x s x.user_param h refl

  -- `push` sends nothing while the subscription is pending; afterwards it sends the notification, with
  -- the identifier and the method of the subscription, on its connection, if that is there and open.
  -- It changes nothing else of the server.
  pub push_lem :
      (encode : Key → String) (k : Key) (message : Value) (s : RawServer Value Key)
      (sub : SubscriptionState)
      → Dict.get s.subscriptions k ≡ some sub
      → (s' : RawServer Value Key) × (push encode k message s ≡ some s')
        × (s' ≡ record s { raw = s'.raw })
        × (s'.raw.sent
            ≡ s.raw.sent
              ++ (if sub.pending
                  then []
                  else delivery
                      (Dict.get s.raw.to_connections sub.raw_id)
                      sub.raw_id
                      (send (some (push_message encode k sub message)))))
  unfolding push push_with Transport.send_response
  push_lem encode k message s sub h = elim (Bool-cases sub.pending) [
    | inl p ↦ (s, rw (h, push_with, p), refl, rw (p, append-nil))
    | inr p ↦ (
      record s {
        raw = (Transport.send_response sub.raw_id (push_message encode k sub message) s.raw).1;
      },
      rw (h, push_with, p),
      refl,
      rw p (
          ap (λ (t : WsTransportServer Value). t.sent)
            (send_response-delivery sub.raw_id (push_message encode k sub message) s.raw)),
    )
  ]
