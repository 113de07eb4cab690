-- ===== src/WsServer/Transport/Delivery.antt =====
-- What `send` and `finish` of ws-server/src/transport.rs put into the channels.
use mathlib.Core.List.{append-nil, append_assoc}
use jsonrpsee.Base.{
  ℕ, List, [], ◌∷◌, ◌++◌, Option, none, some, ◌≡◌, refl, sym, ap, inl, inr, if◌then◌else◌, nat_eq,
  ◌==◌, arith, Bool-cases,
}
use jsonrpsee.Base.Dict
use jsonrpsee.Base.Dict.Laws.{get-remove}
use jsonrpsee.Types.Response.{Response}
use jsonrpsee.WsServer.Transport.{
  WsTransportServer, Sender, FrontToBack, send, finished, send_response, send_with, finish,
  finish_with,
}

module _ {Value : Type 0} where
  -- what a message adds to the channels
  abbrev pub delivery : Option Sender → ℕ → FrontToBack Value → List (ℕ × FrontToBack Value)
  delivery none id m = []
  delivery (some c) id m = if c.is_open then (id, m) ∷ [] else []

  send_with-delivery :
      (id : ℕ) (o : Option Sender) (r : Response Value) (t : WsTransportServer Value)
      → (send_with id o r t).1 ≡ record t { sent = t.sent ++ delivery o id (send (some r)) }
  unfolding send_with
  send_with-delivery id none r t =
      ap (λ (l : List (ℕ × FrontToBack Value)). record t { sent = l }) (sym (append-nil t.sent))
  send_with-delivery id (some c) r t = elim (Bool-cases c.is_open) [
    | inl up ↦ rw up
    | inr down ↦ rw (down, append-nil)
  ]

  -- `send` puts one message into the channel of the request, if that is there and open, and changes
  -- nothing else.
  pub send_response-delivery :
      (id : ℕ) (r : Response Value) (t : WsTransportServer Value)
      → (send_response id r t).1
        ≡ record t { sent = t.sent ++ delivery (Dict.get t.to_connections id) id (send (some r)) }
  unfolding send_response
  send_response-delivery id r t = send_with-delivery id (Dict.get t.to_connections id) r t

  finish_with-delivery :
      (id : ℕ) (o : Option Sender) (r : Option (Response Value)) (t : WsTransportServer Value)
      → Dict.get t.to_connections id ≡ o
      → ((finish_with id o r t).1.sent
          ≡ t.sent ++ (delivery o id (send r) ++ delivery o id (finished id)))
        × ((j : ℕ)
            → Dict.get (finish_with id o r t).1.to_connections j
              ≡ (if id == j then none else Dict.get t.to_connections j))
        × ((finish_with id o r t).1.pending_events ≡ t.pending_events)
  unfolding finish_with
  finish_with-delivery id none r t h = (sym (append-nil t.sent), λ j. ground (arith, h), refl)
  finish_with-delivery id (some c) r t h = elim (Bool-cases c.is_open) [
    | inl up ↦ (
      rw up (append_assoc t.sent ((id, send r) ∷ []) ((id, finished id) ∷ [])),
      λ j. rw (up, get-remove t.to_connections id j),
      rw up,
    )
    | inr down ↦ (rw (down, append-nil), λ j. rw (down, get-remove t.to_connections id j), rw down)
  ]

  -- `finish` puts the message, and the notice that the request is finished, into the channel of the
  -- request, if that is there and open, and forgets the channel in any case.
  pub finish-delivery :
      (id : ℕ) (r : Option (Response Value)) (t : WsTransportServer Value)
      → ((finish id r t).1.sent
          ≡ t.sent
            ++ (delivery (Dict.get t.to_connections id) id (send r)
                ++ delivery (Dict.get t.to_connections id) id (finished id)))
        × ((j : ℕ)
            → Dict.get (finish id r t).1.to_connections j
              ≡ (if id == j then none else Dict.get t.to_connections j))
        × ((finish id r t).1.pending_events ≡ t.pending_events)
  unfolding finish
  finish-delivery id r t = finish_with-delivery id (Dict.get t.to_connections id) r t refl
