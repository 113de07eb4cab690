-- ===== src/WsServer/Connection/Closings.antt =====
-- What becomes of the open requests of a connection whose task has returned (ws-server/src/transport.rs).
use jsonrpsee.Base.{
  ℕ, ◌≤◌, List, [], ◌∷◌, ◌++◌, none, some, if◌then◌else◌, ◌==◌, nat_eq, ◌≡◌, refl, ap, ◌∙◌, inl,
  inr, arith, Bool-cases, Option-cases, subst, In, here, there,
}
use jsonrpsee.Base.Dict
use jsonrpsee.Base.Dict.Laws.{get-remove}
use jsonrpsee.WsServer.Server.{occurrences}
use jsonrpsee.WsServer.Transport.{WsTransportServer, closed, Sender, close_requests}

In-append_left : {A : Type 0} {a : A} {xs : List A} (ys : List A) → In a xs → In a (xs ++ ys)
In-append_left ys (here e) = here e
In-append_left ys (there i) = there (In-append_left ys i)

In-append_right : {A : Type 0} {a : A} (xs : List A) {ys : List A} → In a ys → In a (xs ++ ys)
In-append_right [] i = i
In-append_right (x ∷ xs) i = there (In-append_right xs i)

module _ {Value : Type 0} where
  -- the body of the loop of `close_requests`
  abbrev close_one : ℕ → WsTransportServer Value → WsTransportServer Value
  close_one id t =
      if Dict.contains t.to_connections id
      then record t {
        to_connections = Dict.remove t.to_connections id;
        pending_events = t.pending_events ++ (closed id ∷ []);
      }
      else t

  close_one-get :
      (id j : ℕ) (t : WsTransportServer Value)
      → Dict.get (close_one id t).to_connections j
        ≡ (if id == j then none else Dict.get t.to_connections j)
  close_one-get id j t = elim (Option-cases (Dict.get t.to_connections id)) [
    | inl e ↦ rw e (ground (arith, e))
    | inr (s, e) ↦ rw (e, get-remove t.to_connections id j) refl
  ]

  close_one-events :
      (id j : ℕ) (t : WsTransportServer Value)
      → In (closed j) t.pending_events
      → In (closed j) (close_one id t).pending_events
  close_one-events id j t i = elim (Bool-cases (Dict.contains t.to_connections id)) [
    | inl e ↦ rw e (In-append_left _ i)
    | inr e ↦ rw e i
  ]

  close_one-event :
      (id : ℕ) (s : Sender) (t : WsTransportServer Value)
      → Dict.get t.to_connections id ≡ some s
      → In (closed id) (close_one id t).pending_events
  close_one-event id s t e = rw e (In-append_right t.pending_events (here refl))

  close_requests-events :
      (ids : List ℕ) (j : ℕ) (t : WsTransportServer Value)
      → In (closed j) t.pending_events
      → In (closed j) (close_requests ids t).pending_events
  unfolding close_requests
  close_requests-events [] j t i = i
  close_requests-events (id ∷ ids) j t i =
      close_requests-events ids j (close_one id t) (close_one-events id j t i)

  -- A request that has no connection has none after requests are closed.
  close_requests-absent :
      (ids : List ℕ) (j : ℕ) (t : WsTransportServer Value)
      → Dict.get t.to_connections j ≡ none
      → Dict.get (close_requests ids t).to_connections j ≡ none
  unfolding close_requests
  close_requests-absent [] j t h = h
  close_requests-absent (id ∷ ids) j t h =
      close_requests-absent ids j (close_one id t) (close_one-get id j t ∙ ground (arith, h))

  -- A listed request with a connection has none afterwards, and the event that it is closed is pending.
  pub close_requests-closed :
      (ids : List ℕ) (j : ℕ) (s : Sender) (t : WsTransportServer Value)
      → Dict.get t.to_connections j ≡ some s
      → 1 ≤ occurrences j ids
      → (Dict.get (close_requests ids t).to_connections j ≡ none)
        × In (closed j) (close_requests ids t).pending_events
  unfolding close_requests occurrences
  close_requests-closed [] j s t h k = absurd (omega arith)
  close_requests-closed (id ∷ ids) j s t h k = elim (Bool-cases (id == j)) [
    | inl e ↦
        let p : id ≡ j = (nat_eq.eqb_iff id j).0 e in
        (
          close_requests-absent ids j (close_one id t) (close_one-get id j t ∙ ground (arith, e)),
          close_requests-events ids j (close_one id t) (
              subst (λ i. In (closed i) (close_one id t).pending_events) p
                (close_one-event id s t (ap (Dict.get t.to_connections) p ∙ h))),
        )
    | inr e ↦
        close_requests-closed ids j s (close_one id t) (close_one-get id j t ∙ rw e h)
          (let k' = rw (e, occurrences) at k in omega arith)
  ]
