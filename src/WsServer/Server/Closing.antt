-- ===== src/WsServer/Server/Closing.antt =====
-- The arm `SubscriptionsClosed` of the background task of ws-server/src/server.rs.
use jsonrpsee.Base.{
  ℕ, List, [], ◌∷◌, Option, none, some, true, false, if◌then◌else◌, Eq, ◌==◌, nat_eq, ◌≡◌, ◌⊎◌,
  refl, ◌∙◌, arith, inl, inr, Bool-cases, beq_refl, beq_sound,
}
use jsonrpsee.Base.Dict
use jsonrpsee.Base.Dict.{Dict}
use jsonrpsee.Base.Dict.Laws.{get-remove}
use jsonrpsee.WsServer.Server.{Task, occurrences, retain_other}
use jsonrpsee.WsServer.Server.Events.{closed_clients, closed_found, close_client, close_clients}
use jsonrpsee.WsServer.Server.Occurrences.{occurrences-retain}
use jsonrpsee.WsServer.Server.Sync.{TaskInSync, drop-InSync}

module _ {Value Handler Key : Type 0} ⦃e : Eq Key⦄ where
  -- What closing one subscription leaves
  abbrev pub Closed : Key → Task Value Handler Key → Option (Task Value Handler Key) → Type 0
  Closed k t o =
      (t' : Task Value Handler Key) × (o ≡ some t')
      × TaskInSync t'
      × ((j : Key)
          → Dict.get t'.active_subscriptions j
            ≡ (if k == j then none else Dict.get t.active_subscriptions j))

  closed_clients-Closed :
      (k : Key) (u : ℕ) (o : Option (List Key)) (t : Task Value Handler Key)
      → TaskInSync t
      → Dict.get t.active_subscriptions k ≡ some u
      → Dict.get t.subscribed_clients u ≡ o
      → Closed k t (
          closed_clients k u o
            (record t { active_subscriptions = Dict.remove t.active_subscriptions k }))
  unfolding closed_clients occurrences
  closed_clients-Closed k u none t h a at =
      let one : occurrences k [] ≡ (if u == u then 1 else 0) = rw (at, a) at (h k u) in
      let wrong : occurrences k [] ≡ 1 = rw (beq_refl u) at one in
      let no : ⊥ = omega arith in elim no [ ]
  closed_clients-Closed k u (some clients) t h a at =
      let one : occurrences k clients ≡ (if u == u then 1 else 0) = rw (at, a) at (h k u) in
      let once : occurrences k clients ≡ 1 = rw (beq_refl u) at one in
      (
        record t {
          active_subscriptions = Dict.remove t.active_subscriptions k;
          subscribed_clients = Dict.insert t.subscribed_clients u (retain_other k clients);
        },
        rw once refl,
        drop-InSync k u clients (retain_other k clients) t.subscribed_clients t.active_subscriptions
            h (inl a) at (λ j. occurrences-retain j k clients),
        λ j. get-remove t.active_subscriptions k j,
      )

  closed_found-Closed :
      (k : Key) (o : Option ℕ) (t : Task Value Handler Key)
      → TaskInSync t
      → Dict.get t.active_subscriptions k ≡ o
      → Closed k t (closed_found k o t)
  unfolding closed_found
  closed_found-Closed k none t h a = (t, refl, h, λ j. unchanged j (Bool-cases (k == j)))
    where
      unchanged :
          (j : Key)
          → ((k == j) ≡ true) ⊎ ((k == j) ≡ false)
          → Dict.get t.active_subscriptions j
            ≡ (if k == j then none else Dict.get t.active_subscriptions j)
      unchanged j (inl q) = rw q (rw (beq_sound k j q) at a)
      unchanged j (inr q) = rw q refl
  closed_found-Closed k (some u) t h a =
      closed_clients-Closed k u (Dict.get t.subscribed_clients u) t h a refl

  -- In sync, one turn of the loop does not panic, keeps the tables in sync, and makes exactly this
  -- subscription inactive.
  pub close_client-Closed :
      (k : Key) (t : Task Value Handler Key) → TaskInSync t → Closed k t (close_client k t)
  unfolding close_client
  close_client-Closed k t h = closed_found-Closed k (Dict.get t.active_subscriptions k) t h refl

  -- In sync, the arm `SubscriptionsClosed` does not panic: the assertion that a closed client stands
  -- in its list once holds. It keeps the tables in sync, and makes exactly the listed subscriptions
  -- inactive.
  pub close_clients-InSync :
      (ks : List Key) (t : Task Value Handler Key)
      → TaskInSync t
      → (t' : Task Value Handler Key) × (close_clients ks t ≡ some t')
        × TaskInSync t'
        × ((j : Key)
            → Dict.get t'.active_subscriptions j
              ≡ (if occurrences j ks == 0 then Dict.get t.active_subscriptions j else none))
  unfolding close_clients occurrences
  close_clients-InSync [] t h = (t, refl, h, λ j. refl)
  close_clients-InSync (k ∷ ks) t h =
      let (t', first, h', read) = close_client-Closed k t h in
      let (t'', rest, h'', read') = close_clients-InSync ks t' h' in
      (
        t'',
        rw (first, rest) refl,
        h'',
        λ j.
            read' j
            ∙ rw (read j) (seen j (Bool-cases (k == j)) (Bool-cases (occurrences j ks == 0))),
      )
    where
      seen :
          (j : Key)
          → ((k == j) ≡ true) ⊎ ((k == j) ≡ false)
          → ((occurrences j ks == 0) ≡ true) ⊎ ((occurrences j ks == 0) ≡ false)
          → (if occurrences j ks == 0
              then (if k == j then none else Dict.get t.active_subscriptions j)
              else none)
            ≡ (if occurrences j (k ∷ ks) == 0 then Dict.get t.active_subscriptions j else none)
      seen j (inl q) (inl z) = rw (q, z) (ground arith)
      seen j (inl q) (inr z) = rw (q, z) (ground arith)
      seen j (inr q) z = rw q refl
