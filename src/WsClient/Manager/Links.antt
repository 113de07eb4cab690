-- ===== src/WsClient/Manager/Links.antt =====
-- The two tables of `RequestManager` (ws-client/src/manager.rs) stay linked.
use jsonrpsee.Base.{
  Bool-cases, beq_sound, beq_ne, sym, inl, inr, Option-cases, ap, ◌⊎◌, ◌∙◌, ℕ, String, Option, none,
  some, Bool, true, false, ◌≡◌, ◌≢◌, refl, ◌==◌, nat_eq, beq_refl,
}
use jsonrpsee.Base.Dict
use jsonrpsee.Base.Dict.{Dict}
use jsonrpsee.Base.Dict.Laws.{get-insert, get-remove}
use jsonrpsee.Types.Response.{SubscriptionId}
use jsonrpsee.WsClient.Manager.{
  RequestManager, Kind, subscription_id_eq, new, insert_pending_call, insert_pending_subscription,
  insert_subscription, complete_call_at, complete_subscription_at, complete_pending_call,
  complete_pending_subscription,
}

module _ {C P S : Type 0} where
  abbrev pub is_subscription : Option (Kind C P S) → Bool
  is_subscription (some (Kind.subscription sink unsubscribe)) = true
  is_subscription (some (Kind.pending_method_call send_back)) = false
  is_subscription (some (Kind.pending_subscription send_back unsubscribe)) = false
  is_subscription none = false

  -- Each entry of `subscriptions` leads to an active subscription, each active subscription has one,
  -- and no two of them lead to the same request.
  pub record Linked (m : RequestManager C P S) : Type 0 where
    pub forward :
        (s : SubscriptionId) (r : ℕ)
        → Dict.get m.subscriptions s ≡ some r
        → is_subscription (Dict.get m.requests r) ≡ true
    pub backward :
        (r : ℕ)
        → is_subscription (Dict.get m.requests r) ≡ true
        → (s : SubscriptionId) × (Dict.get m.subscriptions s ≡ some r)
    pub one :
        (s t : SubscriptionId) (r : ℕ)
        → Dict.get m.subscriptions s ≡ some r
        → Dict.get m.subscriptions t ≡ some r
        → s ≡ t

  pub new-Linked : Linked new
  unfolding new Dict.get
  new-Linked = record { forward = λ s r h. cc; backward = λ r h. cc; one = λ s t r h k. cc }

  -- An entry that is not a subscription may be written or taken out where there is none.
  request-Linked :
      (m m' : RequestManager C P S) (id : ℕ)
      → Linked m
      → m'.subscriptions ≡ m.subscriptions
      → is_subscription (Dict.get m.requests id) ≡ false
      → is_subscription (Dict.get m'.requests id) ≡ false
      → ((r : ℕ) → id ≢ r → Dict.get m'.requests r ≡ Dict.get m.requests r)
      → Linked m'
  request-Linked m m' id l same before after others = record {
    forward = λ s r h.
        let k : Dict.get m.subscriptions s ≡ some r = rw same at h in kept r (l.forward s r k);
    backward = λ r h. let (s, k) = l.backward r (back r h) in (s, rw same k);
    one = λ s t r h k. l.one s t r (rw same at h) (rw same at k);
  }
    where
      kept :
          (r : ℕ)
          → is_subscription (Dict.get m.requests r) ≡ true
          → is_subscription (Dict.get m'.requests r) ≡ true
      kept r h = elim (Bool-cases (id == r)) [
        | inl e ↦ cc (beq_sound id r e)
        | inr e ↦ rw (others r (λ q. cc)) h
      ]

      back :
          (r : ℕ)
          → is_subscription (Dict.get m'.requests r) ≡ true
          → is_subscription (Dict.get m.requests r) ≡ true
      back r h = elim (Bool-cases (id == r)) [
        | inl e ↦ cc (beq_sound id r e)
        | inr e ↦ rw (sym (others r (λ q. cc))) h
      ]

  insert-Linked :
      (id : ℕ) (k : Kind C P S) (m : RequestManager C P S)
      → Linked m
      → Dict.get m.requests id ≡ none
      → is_subscription (some k) ≡ false
      → Linked (record m { requests = Dict.insert m.requests id k })
  insert-Linked id k m l e o =
      request-Linked m (record m { requests = Dict.insert m.requests id k }) id l refl (rw e refl)
        (rw (get-insert m.requests id id k, beq_refl id) o)
        (λ r ne. rw (get-insert m.requests id r k, beq_ne id r ne) refl)

  remove-Linked :
      (id : ℕ) (k : Kind C P S) (m : RequestManager C P S)
      → Linked m
      → Dict.get m.requests id ≡ some k
      → is_subscription (some k) ≡ false
      → Linked (record m { requests = Dict.remove m.requests id })
  remove-Linked id k m l e o =
      request-Linked m (record m { requests = Dict.remove m.requests id }) id l refl (rw e o)
        (rw (get-remove m.requests id id, beq_refl id) refl)
        (λ r ne. rw (get-remove m.requests id r, beq_ne id r ne) refl)

  -- `insert_pending_call` keeps the tables linked.
  pub insert_pending_call-Linked :
      (id : ℕ) (c : C) (m : RequestManager C P S) → Linked m → Linked (insert_pending_call id c m).1
  unfolding insert_pending_call
  insert_pending_call-Linked id c m l = elim (Option-cases (Dict.get m.requests id)) [
    | inl e ↦ rw e (insert-Linked id (Kind.pending_method_call c) m l e refl)
    | inr (v, e) ↦ rw e l
  ]

  -- `insert_pending_subscription` keeps the tables linked.
  pub insert_pending_subscription-Linked :
      (id : ℕ) (p : P) (u : String) (m : RequestManager C P S)
      → Linked m
      → Linked (insert_pending_subscription id p u m).1
  unfolding insert_pending_subscription
  insert_pending_subscription-Linked id p u m l = elim (Option-cases (Dict.get m.requests id)) [
    | inl e ↦ rw e (insert-Linked id (Kind.pending_subscription p u) m l e refl)
    | inr (v, e) ↦ rw e l
  ]

  complete_call_at-Linked :
      (id : ℕ) (o : Option (Kind C P S)) (m : RequestManager C P S)
      → Dict.get m.requests id ≡ o
      → Linked m
      → Linked (complete_call_at id o m).1
  unfolding complete_call_at
  complete_call_at-Linked id (some (Kind.pending_method_call c)) m e l =
      remove-Linked id (Kind.pending_method_call c) m l e refl
  complete_call_at-Linked id (some (Kind.pending_subscription p u)) m e l = l
  complete_call_at-Linked id (some (Kind.subscription s u)) m e l = l
  complete_call_at-Linked id none m e l = l

  complete_subscription_at-Linked :
      (id : ℕ) (o : Option (Kind C P S)) (m : RequestManager C P S)
      → Dict.get m.requests id ≡ o
      → Linked m
      → Linked (complete_subscription_at id o m).1
  unfolding complete_subscription_at
  complete_subscription_at-Linked id (some (Kind.pending_method_call c)) m e l = l
  complete_subscription_at-Linked id (some (Kind.pending_subscription p u)) m e l =
      remove-Linked id (Kind.pending_subscription p u) m l e refl
  complete_subscription_at-Linked id (some (Kind.subscription s u)) m e l = l
  complete_subscription_at-Linked id none m e l = l

  -- Taking a pending request out keeps the tables linked.
  pub complete-Linked :
      (id : ℕ) (m : RequestManager C P S)
      → Linked m
      → Linked (complete_pending_call id m).1 × Linked (complete_pending_subscription id m).1
  unfolding complete_pending_call complete_pending_subscription
  complete-Linked id m l = (
    complete_call_at-Linked id (Dict.get m.requests id) m refl l,
    complete_subscription_at-Linked id (Dict.get m.requests id) m refl l,
  )

  -- An active subscription enters both tables.
  module _ (id : ℕ) (sub_id : SubscriptionId) (k : Kind C P S) (m : RequestManager C P S)
      (l : Linked m) (e : Dict.get m.requests id ≡ none)
      (f : Dict.get m.subscriptions sub_id ≡ none) (o : is_subscription (some k) ≡ true) where
    read_back :
        (s : SubscriptionId) (r : ℕ)
        → Dict.get (Dict.insert m.subscriptions sub_id id) s ≡ some r
        → ((sub_id ≡ s) × (id ≡ r)) ⊎ (Dict.get m.subscriptions s ≡ some r)
    read_back s r h = elim (Bool-cases (sub_id == s)) [
      | inl p ↦
          let found : some id ≡ some r = rw (get-insert m.subscriptions sub_id s id, p) at h in
          inl (beq_sound sub_id s p, cc)
      | inr p ↦ inr (rw (get-insert m.subscriptions sub_id s id, p) at h)
    ]

    unused : (s : SubscriptionId) (r : ℕ) → id ≡ r → Dict.get m.subscriptions s ≢ some r
    unused s r q h =
        let active : is_subscription (Dict.get m.requests r) ≡ true = l.forward s r h in
        let absent : is_subscription (Dict.get m.requests r) ≡ false = rw (sym q, e) refl in cc

    forward_to :
        (s : SubscriptionId) (r : ℕ)
        → Dict.get (Dict.insert m.subscriptions sub_id id) s ≡ some r
        → is_subscription (Dict.get (Dict.insert m.requests id k) r) ≡ true
    forward_to s r h = elim (read_back s r h) [
      | inl (p, q) ↦ rw (get-insert m.requests id r k, sym q, beq_refl id) o
      | inr at ↦
          rw (get-insert m.requests id r k, beq_ne id r (λ q. unused s r q at)) (l.forward s r at)
    ]

    back_to :
        (r : ℕ)
        → is_subscription (Dict.get (Dict.insert m.requests id k) r) ≡ true
        → (s : SubscriptionId) × (Dict.get (Dict.insert m.subscriptions sub_id id) s ≡ some r)
    back_to r h = elim (Bool-cases (id == r)) [
      | inl q ↦ (
        sub_id,
        rw (get-insert m.subscriptions sub_id sub_id id, beq_refl sub_id)
            (ap (λ x. some x) (beq_sound id r q)),
      )
      | inr q ↦
          let (s, at) = l.backward r (rw (get-insert m.requests id r k, q) at h) in
          (s, rw (get-insert m.subscriptions sub_id s id, beq_ne sub_id s (λ p. cc (p, f, at))) at)
    ]

    one_of :
        (s t : SubscriptionId) (r : ℕ)
        → Dict.get (Dict.insert m.subscriptions sub_id id) s ≡ some r
        → Dict.get (Dict.insert m.subscriptions sub_id id) t ≡ some r
        → s ≡ t
    one_of s t r h j = elim (read_back s r h) [
      | inl (p, q) ↦ elim (read_back t r j) [
        | inl (p', q') ↦ sym p ∙ p'
        | inr at ↦ elim (unused t r q at) [ ]
      ]
      | inr at ↦ elim (read_back t r j) [
        | inl (p', q') ↦ elim (unused s r q' at) [ ]
        | inr at' ↦ l.one s t r at at'
      ]
    ]

    added-Linked : Linked (record {
      requests = Dict.insert m.requests id k;
      subscriptions = Dict.insert m.subscriptions sub_id id;
    })
    added-Linked = record { forward = forward_to; backward = back_to; one = one_of }

  -- `insert_subscription` keeps the tables linked.
  pub insert_subscription-Linked :
      (id : ℕ) (sub_id : SubscriptionId) (s : S) (u : String) (m : RequestManager C P S)
      → Linked m
      → Linked (insert_subscription id sub_id s u m).1
  unfolding insert_subscription
  insert_subscription-Linked id sub_id s u m l = elim (Option-cases (Dict.get m.requests id)) [
    | inl e ↦ elim (Option-cases (Dict.get m.subscriptions sub_id)) [
      | inl f ↦ rw (e, f) (added-Linked id sub_id (Kind.subscription s u) m l e f refl)
      | inr (r, f) ↦ rw (e, f) l
    ]
    | inr (v, e) ↦ rw e l
  ]
