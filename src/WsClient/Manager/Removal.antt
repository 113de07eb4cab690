-- ===== src/WsClient/Manager/Removal.antt =====
-- `remove_subscription` of ws-client/src/manager.rs keeps the two tables linked.
use jsonrpsee.Base.{
  Bool-cases, beq_ne, inl, inr, ap, ◌∙◌, ℕ, String, Option, none, some, true, false, ◌≡◌, ◌≢◌, refl,
  ◌==◌, nat_eq, beq_refl,
}
use jsonrpsee.Base.Dict
use jsonrpsee.Base.Dict.{Dict}
use jsonrpsee.Base.Dict.Laws.{get-remove}
use jsonrpsee.Types.Response.{SubscriptionId}
use jsonrpsee.WsClient.Manager.{
  RequestManager, Kind, subscription_id_eq, remove_subscription_at, remove_subscription,
  get_request_id_by_subscription_id,
}
use jsonrpsee.WsClient.Manager.Links.{Linked, is_subscription}

module _ {C P S : Type 0} where
  -- An active subscription leaves both tables.
  module _ (id : ℕ) (sub_id : SubscriptionId) (m : RequestManager C P S) (l : Linked m)
      (f : Dict.get m.subscriptions sub_id ≡ some id) where
    left :
        (s : SubscriptionId) (r : ℕ)
        → Dict.get (Dict.remove m.subscriptions sub_id) s ≡ some r
        → (sub_id ≢ s) × (Dict.get m.subscriptions s ≡ some r)
    left s r h = elim (Bool-cases (sub_id == s)) [
      | inl p ↦ let no : none ≡ some r = rw (get-remove m.subscriptions sub_id s, p) at h in cc
      | inr p ↦ (
        (λ q. let other : (s == s) ≡ false = rw q at p in cc (beq_refl s)),
        rw (get-remove m.subscriptions sub_id s, p) at h,
      )
    ]

    forward_left :
        (s : SubscriptionId) (r : ℕ)
        → Dict.get (Dict.remove m.subscriptions sub_id) s ≡ some r
        → is_subscription (Dict.get (Dict.remove m.requests id) r) ≡ true
    forward_left s r h =
        let (ne, at) = left s r h in
        rw
          (
            get-remove m.requests id r,
            beq_ne id r (λ q. ne (l.one sub_id s r (f ∙ ap (λ x. some x) q) at)),
          )
          (l.forward s r at)

    back_left :
        (r : ℕ)
        → is_subscription (Dict.get (Dict.remove m.requests id) r) ≡ true
        → (s : SubscriptionId) × (Dict.get (Dict.remove m.subscriptions sub_id) s ≡ some r)
    back_left r h = elim (Bool-cases (id == r)) [
      | inl q ↦ let no : false ≡ true = rw (get-remove m.requests id r, q) at h in cc
      | inr q ↦
          let (s, at) = l.backward r (rw (get-remove m.requests id r, q) at h) in
          (s, rw (get-remove m.subscriptions sub_id s, beq_ne sub_id s (λ p. ne_of r q s at p)) at)
    ]
      where
        ne_of :
            (r : ℕ)
            → (id == r) ≡ false
            → (s : SubscriptionId) → Dict.get m.subscriptions s ≡ some r
            → sub_id ≢ s
        ne_of r q s at p =
            let same : some id ≡ some r = cc in
            let other : id ≡ r = cc in
            let wrong : (r == r) ≡ false = rw other at q in cc (beq_refl r)

    pub removed-Linked : Linked (record {
      requests = Dict.remove m.requests id;
      subscriptions = Dict.remove m.subscriptions sub_id;
    })
    removed-Linked = record {
      forward = forward_left;
      backward = back_left;
      one = λ s t r h k. l.one s t r (left s r h).1 (left t r k).1;
    }

  remove_subscription_at-Linked :
      (id : ℕ) (sub_id : SubscriptionId) (o : Option (Kind C P S)) (m : RequestManager C P S)
      → Dict.get m.subscriptions sub_id ≡ some id
      → Linked m
      → Linked (remove_subscription_at id sub_id o m).1
  unfolding remove_subscription_at
  remove_subscription_at-Linked id sub_id (some (Kind.subscription s u)) m f l =
      rw f (removed-Linked id sub_id m l f)
  remove_subscription_at-Linked id sub_id (some (Kind.pending_method_call c)) m f l = l
  remove_subscription_at-Linked id sub_id (some (Kind.pending_subscription p u)) m f l = l
  remove_subscription_at-Linked id sub_id none m f l = l

  -- `remove_subscription`, called with the request that the reverse lookup gives, keeps the tables
  -- linked, and it does find the subscription.
  pub remove_subscription-Linked :
      (id : ℕ) (sub_id : SubscriptionId) (m : RequestManager C P S)
      → Linked m
      → get_request_id_by_subscription_id sub_id m ≡ some id
      → Linked (remove_subscription id sub_id m).1
        × ((s : S) × (u : String) × ((remove_subscription id sub_id m).0 ≡ some (s, u)))
  unfolding remove_subscription remove_subscription_at
  remove_subscription-Linked id sub_id m l f = (
    remove_subscription_at-Linked id sub_id (Dict.get m.requests id) m f l,
    found (Dict.get m.requests id) (l.forward sub_id id f),
  )
    where
      found :
          (o : Option (Kind C P S))
          → is_subscription o ≡ true
          → (s : S) × (u : String) × ((remove_subscription_at id sub_id o m).0 ≡ some (s, u))
      found (some (Kind.subscription s u)) h = (s, u, rw f refl)
      found (some (Kind.pending_method_call c)) h = cc
      found (some (Kind.pending_subscription p u)) h = cc
      found none h = cc
