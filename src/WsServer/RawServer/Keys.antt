-- ===== src/WsServer/RawServer/Keys.antt =====
-- The subscriptions of one connection (ws-server/src/raw/core.rs): which keys `keys_on` collects,
-- and what is left when they are removed.
use jsonrpsee.Base.{
  ℕ, List, [], ◌∷◌, Option, none, some, Bool, true, false, ◌||◌, ◌≡◌, inl, inr, refl, ap, ◌∙◌,
  if◌then◌else◌, Eq, ◌==◌, nat_eq, arith, beq_refl, Option-cases, Bool-cases,
}
use jsonrpsee.Base.Dict
use jsonrpsee.Base.Dict.{Dict}
use jsonrpsee.Base.Dict.Laws.{get-remove, remove-Unique}
use jsonrpsee.Base.Dict.Counting.{
  count_values, weight, count_values-remove, remove-absent, count_values-none,
}
use jsonrpsee.WsServer.RawServer.{SubscriptionState, is_on, keys_on, remove_keys}

module _ {Key : Type 0} ⦃e : Eq Key⦄ where
  abbrev pub member : Key → List Key → Bool
  member k [] = false
  member k (j ∷ js) = j == k || member k js

  pub get-remove_keys :
      (ks : List Key) (d : Dict Key SubscriptionState) (j : Key)
      → Dict.get (remove_keys ks d) j ≡ (if member j ks then none else Dict.get d j)
  unfolding remove_keys
  get-remove_keys [] d j = refl
  get-remove_keys (k ∷ ks) d j =
      ground (arith, get-remove_keys ks (Dict.remove d k) j, get-remove d k j)

  pub remove_keys-Unique :
      (ks : List Key) (d : Dict Key SubscriptionState)
      → Dict.Unique d
      → Dict.Unique (remove_keys ks d)
  unfolding remove_keys
  remove_keys-Unique [] d u = u
  remove_keys-Unique (k ∷ ks) d u = remove_keys-Unique ks (Dict.remove d k) (remove-Unique d k u)

  member-keys_on_none :
      (id : ℕ) (d : Dict Key SubscriptionState) (j : Key)
      → Dict.get d j ≡ none
      → member j (keys_on id d) ≡ false
  unfolding keys_on Dict.get
  member-keys_on_none id [] j h = refl
  member-keys_on_none id ((k, s) ∷ d) j h = ground (arith, member-keys_on_none id d j)

  -- `keys_on` collects the key of a subscription if and only if it is on the connection.
  pub member-keys_on :
      (id : ℕ) (d : Dict Key SubscriptionState) (j : Key) (s : SubscriptionState)
      → Dict.Unique d
      → Dict.get d j ≡ some s
      → member j (keys_on id d) ≡ is_on id s
  unfolding keys_on Dict.get
  member-keys_on id [] j s u h = cc
  member-keys_on id ((k, x) ∷ d) j s u h =
      ground (arith, member-keys_on id d j s u.1, member-keys_on_none id d j, e.eqb_iff k j)

  -- Removing what `keys_on` has collected leaves exactly the subscriptions on other connections.
  pub get-remove_keys_on :
      (id : ℕ) (d : Dict Key SubscriptionState) (j : Key) (s : SubscriptionState)
      → Dict.Unique d
      → Dict.get (remove_keys (keys_on id d) d) j ≡ some s
      → (Dict.get d j ≡ some s) × (is_on id s ≡ false)
  get-remove_keys_on id d j s u h =
      let law = get-remove_keys (keys_on id d) d j in
      elim (Option-cases (Dict.get d j)) [
        | inl gone ↦ ground (arith, law)
        | inr (x, at) ↦ ground (arith, law, member-keys_on id d j x u at)
      ]

  pub count-remove_keys :
      (test : SubscriptionState → Bool) (ks : List Key) (d : Dict Key SubscriptionState)
      → Dict.Unique d
      → ((k : Key) (s : SubscriptionState)
          → member k ks ≡ true
          → Dict.get d k ≡ some s
          → test s ≡ false)
      → count_values test (remove_keys ks d) ≡ count_values test d
  unfolding remove_keys
  count-remove_keys test [] d u h = refl
  count-remove_keys test (k ∷ ks) d u h =
      count-remove_keys test ks (Dict.remove d k) (remove-Unique d k u)
        (λ j s m at. ground (arith, h j s, get-remove d k j))
      ∙ one (Dict.get d k) refl
    where
      one :
          (o : Option SubscriptionState)
          → Dict.get d k ≡ o
          → count_values test (Dict.remove d k) ≡ count_values test d
      one none at = ap (count_values test) (remove-absent d k at)
      one (some s) at =
          let out : test s ≡ false = h k s (rw (beq_refl k)) at in
          omega (arith, ap weight out, count_values-remove test d k s at u)

  -- The subscriptions on every other connection are as many as before, and none is on this one.
  pub count-remove_keys_on :
      (id r : ℕ) (d : Dict Key SubscriptionState)
      → Dict.Unique d
      → count_values (is_on r) (remove_keys (keys_on id d) d)
        ≡ (if id == r then 0 else count_values (is_on r) d)
  count-remove_keys_on id r d u = elim (Bool-cases (id == r)) [
    | inl same ↦ rw same (
        count_values-none (is_on r) _ (remove_keys-Unique (keys_on id d) d u)
          (λ j s at. ground (arith, get-remove_keys_on id d j s u at)))
    | inr other ↦ rw other (
        count-remove_keys (is_on r) (keys_on id d) d u
          (λ j s m at. ground (arith, member-keys_on id d j s u at)))
  ]

  -- There is a key to collect if the count is positive.
  pub keys_on-count :
      (id : ℕ) (d : Dict Key SubscriptionState) → keys_on id d ≡ [] → count_values (is_on id) d ≡ 0
  unfolding keys_on count_values
  keys_on-count id [] h = refl
  keys_on-count id ((k, s) ∷ d) h = ground (arith, keys_on-count id d)
