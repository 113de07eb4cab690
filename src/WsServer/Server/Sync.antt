-- ===== src/WsServer/Server/Sync.antt =====
-- `active_subscriptions` is the reversed mapping of `subscribed_clients` (ws-server/src/server.rs).
use jsonrpsee.Base.{
  ℕ, ◌+◌, ◌-◌, List, [], ◌∷◌, ◌++◌, Option, none, some, true, false, if◌then◌else◌, Eq, ◌==◌,
  nat_eq, string_eq, ◌≡◌, ◌⊎◌, refl, sym, ◌∙◌, arith, inl, inr, Bool-cases, Option-cases, beq_sound,
}
use jsonrpsee.Base.Dict
use jsonrpsee.Base.Dict.{Dict}
use jsonrpsee.Base.Dict.Laws.{get-insert, get-remove}
use jsonrpsee.WsServer.Server.{Task, occurrences, remove_first}
use jsonrpsee.WsServer.Server.Events.{push_client, add_client, drop_found, drop_client}
use jsonrpsee.WsServer.Server.Occurrences.{
  occurrences-append, occurrences-one, occurrences-remove_first,
}

abbrev pub or_empty : {Key : Type 0} → Option (List Key) → List Key
or_empty none = []
or_empty (some ks) = ks

abbrev pub indicator : Option ℕ → ℕ → ℕ
indicator none u = 0
indicator (some v) u = if v == u then 1 else 0

module _ {Key : Type 0} ⦃e : Eq Key⦄ where
  -- A client stands once in the list of the subscription that it is active for, and in no other.
  abbrev pub InSync : Dict ℕ (List Key) → Dict Key ℕ → Type 0
  InSync sc act =
      (k : Key) (u : ℕ) → occurrences k (or_empty (Dict.get sc u)) ≡ indicator (Dict.get act k) u

  pub add-InSync :
      (k : Key) (u : ℕ) (clients : List Key) (sc : Dict ℕ (List Key)) (act : Dict Key ℕ)
      → InSync sc act
      → Dict.get act k ≡ none
      → Dict.get sc u ≡ some clients
      → InSync (Dict.insert sc u (clients ++ (k ∷ []))) (Dict.insert act k u)
  add-InSync k u clients sc act h fresh at j v =
      rw (get-insert sc u v (clients ++ (k ∷ [])), get-insert act k j u)
        (elim (Bool-cases (u == v)) [
          | inl p ↦ rw p (
              rw (occurrences-append j clients (k ∷ []), occurrences-one j k)
                (here p (Bool-cases (k == j))))
          | inr p ↦ rw p (there p (Bool-cases (k == j)))
        ])
    where
      here :
          (u == v) ≡ true
          → ((k == j) ≡ true) ⊎ ((k == j) ≡ false)
          → occurrences j clients + (if k == j then 1 else 0)
            ≡ indicator (if k == j then some u else Dict.get act j) v
      here p (inl q) =
          let no : occurrences k clients ≡ 0 = rw (at, fresh) at (h k u) in
          let none_yet : occurrences j clients ≡ 0 = rw (beq_sound k j q) at no in
          rw (q, p) (omega arith)
      here p (inr q) =
          let known : occurrences j clients ≡ indicator (Dict.get act j) u = rw at at (h j u) in
          rw (q, sym (beq_sound u v p)) (omega arith)

      there :
          (u == v) ≡ false
          → ((k == j) ≡ true) ⊎ ((k == j) ≡ false)
          → occurrences j (or_empty (Dict.get sc v))
            ≡ indicator (if k == j then some u else Dict.get act j) v
      there p (inl q) =
          let no : occurrences k (or_empty (Dict.get sc v)) ≡ 0 = rw fresh at (h k v) in
          rw (q, p) (rw (beq_sound k j q) at no)
      there p (inr q) = rw q (h j v)

  -- Taking a client out of the list that holds it, and out of the active ones
  pub drop-InSync :
      (k : Key) (u : ℕ) (clients left : List Key) (sc : Dict ℕ (List Key)) (act : Dict Key ℕ)
      → InSync sc act
      → (Dict.get act k ≡ some u) ⊎ (Dict.get act k ≡ none)
      → Dict.get sc u ≡ some clients
      → ((j : Key) → occurrences j left ≡ (if k == j then 0 else occurrences j clients))
      → InSync (Dict.insert sc u left) (Dict.remove act k)
  drop-InSync k u clients left sc act h active at without j v =
      rw (get-insert sc u v left, get-remove act k j)
        (elim (Bool-cases (u == v)) [
          | inl p ↦ rw p (rw (without j) (here p (Bool-cases (k == j))))
          | inr p ↦ rw p (there p active (Bool-cases (k == j)))
        ])
    where
      here :
          (u == v) ≡ true
          → ((k == j) ≡ true) ⊎ ((k == j) ≡ false)
          → (if k == j then 0 else occurrences j clients)
            ≡ indicator (if k == j then none else Dict.get act j) v
      here p (inl q) = rw q refl
      here p (inr q) =
          let known : occurrences j clients ≡ indicator (Dict.get act j) u = rw at at (h j u) in
          rw (q, sym (beq_sound u v p)) known

      there :
          (u == v) ≡ false
          → (Dict.get act k ≡ some u) ⊎ (Dict.get act k ≡ none)
          → ((k == j) ≡ true) ⊎ ((k == j) ≡ false)
          → occurrences j (or_empty (Dict.get sc v))
            ≡ indicator (if k == j then none else Dict.get act j) v
      there p (inl a) (inl q) =
          let no : occurrences k (or_empty (Dict.get sc v)) ≡ 0 = rw (a, p) at (h k v) in
          rw q (rw (beq_sound k j q) at no)
      there p (inr a) (inl q) =
          let no : occurrences k (or_empty (Dict.get sc v)) ≡ 0 = rw a at (h k v) in
          rw q (rw (beq_sound k j q) at no)
      there p a (inr q) = rw q (h j v)

  at_most_once :
      (k : Key) (u : ℕ) (sc : Dict ℕ (List Key)) (act : Dict Key ℕ)
      → InSync sc act
      → (o : Option ℕ) → Dict.get act k ≡ o
      → occurrences k (or_empty (Dict.get sc u)) - 1 ≡ 0
  at_most_once k u sc act h none a = let x = h k u in rw (x, a) (omega arith)
  at_most_once k u sc act h (some v) a = let x = h k u in rw (x, a) (ground arith)

module _ {Value Handler Key : Type 0} ⦃e : Eq Key⦄ where
  abbrev pub TaskInSync : Task Value Handler Key → Type 0
  TaskInSync t = InSync t.subscribed_clients t.active_subscriptions

  -- A new client of a registered subscription keeps the tables in sync when it was not active before.
  pub add_client-InSync :
      (k : Key) (u : ℕ) (clients : List Key) (t : Task Value Handler Key)
      → TaskInSync t
      → Dict.get t.active_subscriptions k ≡ none
      → Dict.get t.subscribed_clients u ≡ some clients
      → TaskInSync (add_client k u t)
  unfolding add_client push_client
  add_client-InSync k u clients t h fresh at =
      rw at (add-InSync k u clients t.subscribed_clients t.active_subscriptions h fresh at)

  -- An unsubscription keeps the tables in sync when the client was active for that subscription, or
  -- for none.
  pub drop_client-InSync :
      (k : Key) (u : ℕ) (t : Task Value Handler Key)
      → TaskInSync t
      → (Dict.get t.active_subscriptions k ≡ some u) ⊎ (Dict.get t.active_subscriptions k ≡ none)
      → TaskInSync (drop_client k u t)
  unfolding drop_client drop_found
  drop_client-InSync k u t h active = elim (Option-cases (Dict.get t.subscribed_clients u)) [
    | inl at ↦ rw at h
    | inr (clients, at) ↦ rw at (
        drop-InSync k u clients (remove_first k clients) t.subscribed_clients t.active_subscriptions
          h active at
          (λ j. occurrences-remove_first j k clients ∙ left j clients at (Bool-cases (k == j))))
  ]
    where
      left :
          (j : Key) (clients : List Key)
          → Dict.get t.subscribed_clients u ≡ some clients
          → ((k == j) ≡ true) ⊎ ((k == j) ≡ false)
          → (if k == j then occurrences j clients - 1 else occurrences j clients)
            ≡ (if k == j then 0 else occurrences j clients)
      left j clients at (inl q) =
          let once : occurrences k clients - 1 ≡ 0 = rw at at (
            at_most_once k u t.subscribed_clients t.active_subscriptions h
              (Dict.get t.active_subscriptions k) refl) in
          rw q (rw (beq_sound k j q) at once)
      left j clients at (inr q) = rw q refl
