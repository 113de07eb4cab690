-- ===== src/WsServer/Connection/Balance.antt =====
-- That the task of a connection (ws-server/src/transport.rs) finds each request that the server says is
-- finished, and returns each that is open.
use jsonrpsee.Base.{
  ℕ, ◌+◌, ◌≤◌, List, [], ◌∷◌, ◌++◌, Option, none, some, Bool, true, if◌then◌else◌, ◌==◌, nat_eq,
  ◌≡◌, refl, sym, ap, ◌∙◌, inl, inr, arith, Bool-cases,
}
use jsonrpsee.Base.Dict
use jsonrpsee.Base.Dict.Laws.{get-insert}
use jsonrpsee.Types.Request.{Request}
use jsonrpsee.Types.Response.{Response}
use jsonrpsee.WsServer.Server.{occurrences}
use jsonrpsee.WsServer.Transport.{
  WsTransportServer, Sender, FrontToBack, send, finished, new_request, next_request, finish,
  send_response,
}
use jsonrpsee.WsServer.Transport.Delivery.{delivery, finish-delivery, send_response-delivery}
use jsonrpsee.WsServer.Connection.Accounts.{told, finishings}
use jsonrpsee.WsServer.Connection.Link.{Net, messages, live, Opens}

pub finishings-append :
    {Value : Type 0} (j : ℕ) (ms ns : List (FrontToBack Value))
    → finishings j (ms ++ ns) ≡ finishings j ms + finishings j ns
finishings-append j [] ns = omega arith
finishings-append j (send r ∷ ms) ns = finishings-append j ms ns
finishings-append j (finished id ∷ ms) ns = let h = finishings-append j ms ns in omega arith

sent-append :
    {Value : Type 0} (j : ℕ) (xs ys : List (ℕ × FrontToBack Value))
    → finishings j (messages (xs ++ ys)) ≡ finishings j (messages xs) + finishings j (messages ys)
sent-append j [] ys = omega arith
sent-append j ((id, send r) ∷ xs) ys = sent-append j xs ys
sent-append j ((id, finished i) ∷ xs) ys = let h = sent-append j xs ys in omega arith

-- What is sent in addition says as often as what is delivered that a request is finished.
sent_cancel :
    {Value : Type 0} (j : ℕ) (old xs ys : List (ℕ × FrontToBack Value))
    → old ++ ys ≡ old ++ xs
    → finishings j (messages xs) ≡ finishings j (messages ys)
sent_cancel j old xs ys h =
    let k : finishings j (messages (old ++ ys)) ≡ finishings j (messages (old ++ xs)) =
      ap (λ l. finishings j (messages l)) h in
    omega (arith, sent-append j old xs, sent-append j old ys)

abbrev pub held : Option Sender → ℕ
held none = 0
held (some s) = 1

module _ (Value : Type 0) where
  delivery-send :
      (j id : ℕ) (o : Option Sender) (r : Option (Response Value))
      → finishings j (messages (delivery o id (send r))) ≡ 0
  delivery-send j id none r = refl
  delivery-send j id (some c) r = elim (Bool-cases c.is_open) [
    | inl e ↦ rw e refl
    | inr e ↦ rw e refl
  ]

  delivery-finished :
      (j id : ℕ) (o : Option Sender)
      → finishings j (messages (delivery {Value = Value} o id (finished id)))
        ≤ (if id == j then held o else 0)
  delivery-finished j id none = ground arith
  delivery-finished j id (some c) = elim (Bool-cases c.is_open) [
    | inl e ↦ rw e (ground arith)
    | inr e ↦ rw e (ground arith)
  ]

module _ {Value : Type 0} (mine : ℕ → Bool) where
  -- A request of the connection that the server has not read, holds, or has said to be finished in a
  -- message that is not read yet, is pending in the task.
  abbrev pub Balance : Net Value → Type 0
  Balance n =
      (j : ℕ)
      → (if mine j then held (Dict.get n.server.to_connections j) else 0)
          + (occurrences j (told n.queue) + finishings j n.inbox)
        ≤ occurrences j n.connection.pending_requests

  pub Opens-Balance : (n : Net Value) → Opens mine n → Balance n
  unfolding occurrences
  Opens-Balance n o j = elim (Bool-cases (mine j)) [
    | inl e ↦ rw (e, o.none_known j e, o.none_queued, o.none_sent) (omega arith)
    | inr e ↦ rw (e, o.none_queued, o.none_sent) (omega arith)
  ]

  -- Finishing a request of the connection
  pub finishes-Balance :
      (n : Net Value) (id : ℕ) (r : Option (Response Value)) (xs : List (ℕ × FrontToBack Value))
      → Balance n
      → mine id ≡ true
      → (finish id r n.server).1.sent ≡ n.server.sent ++ xs
      → Balance (record n { server = (finish id r n.server).1; inbox = n.inbox ++ messages xs })
  finishes-Balance n id r xs b own h j =
      let (put, after, same) = finish-delivery id r n.server in
      let o : Option Sender = Dict.get n.server.to_connections id in
      let k =
        sent_cancel j n.server.sent xs (delivery o id (send r) ++ delivery o id (finished id))
          (sym put ∙ h) in
      let a = sent-append j (delivery o id (send r)) (delivery o id (finished id)) in
      let s = delivery-send Value j id o r in
      let f = delivery-finished Value j id o in
      let m = finishings-append j n.inbox (messages xs) in
      let c = b j in
      elim (Bool-cases (id == j)) [
        | inl e ↦
            let p : id ≡ j = (nat_eq.eqb_iff id j).0 e in
            let q : held o ≡ held (Dict.get n.server.to_connections j) =
              ap (λ i. held (Dict.get n.server.to_connections i)) p in
            let ow : mine j ≡ true = ap mine (sym p) ∙ own in
            let f' = rw e at f in let c' = rw ow at c in rw (after j, e, ow) (omega arith)
        | inr e ↦ let f' = rw e at f in rw (after j, e) (omega arith)
      ]

  -- Sending a response to a request of the connection
  pub sends-Balance :
      (n : Net Value) (id : ℕ) (r : Response Value) (xs : List (ℕ × FrontToBack Value))
      → Balance n
      → (send_response id r n.server).1.sent ≡ n.server.sent ++ xs
      → Balance
          (record n { server = (send_response id r n.server).1; inbox = n.inbox ++ messages xs })
  sends-Balance n id r xs b h j =
      let put = send_response-delivery id r n.server in
      let o : Option Sender = Dict.get n.server.to_connections id in
      let k =
        sent_cancel j n.server.sent xs (delivery o id (send (some r)))
          (sym (ap (λ (s : WsTransportServer Value). s.sent) put) ∙ h) in
      let s = delivery-send Value j id o (some r) in
      let m = finishings-append j n.inbox (messages xs) in
      let q = ap (λ (s : WsTransportServer Value). held (Dict.get s.to_connections j)) put in
      let c = b j in
      elim (Bool-cases (mine j)) [
        | inl e ↦ let c' = rw e at c in rw e (omega arith)
        | inr e ↦ let c' = rw e at c in rw e (omega arith)
      ]

  next_request-insert :
      (id : ℕ) (rq : Request Value) (s : WsTransportServer Value)
      → s.pending_events ≡ []
      → (next_request (new_request id rq live ∷ []) s).1
        ≡ record s { to_connections = Dict.insert s.to_connections id live }
  unfolding next_request
  next_request-insert id rq s h = rw h refl

  pub told-cons :
      (j id : ℕ) (rq : Request Value) (rest : List (ℕ × Request Value))
      → occurrences j (told ((id, rq) ∷ rest))
        ≡ (if id == j then 1 else 0) + occurrences j (told rest)
  unfolding occurrences
  told-cons j id rq rest = ground arith

  -- The server reads a request.
  pub arrives-Balance :
      (n : Net Value) (id : ℕ) (rq : Request Value) (rest : List (ℕ × Request Value))
      → Balance n
      → n.queue ≡ (id, rq) ∷ rest
      → n.server.pending_events ≡ []
      → Balance (record n {
        server = (next_request (new_request id rq live ∷ []) n.server).1;
        queue = rest;
      })
  arrives-Balance n id rq rest b h p j =
      let c = rw h at b j in
      let g = get-insert n.server.to_connections id j live in
      let q =
        ap (λ (s : WsTransportServer Value). held (Dict.get s.to_connections j))
          (next_request-insert id rq n.server p) in
      let g' = ap held g in
      let t = told-cons j id rq rest in
      elim (Bool-cases (id == j)) [
        | inl e ↦
            let g'' = rw e at g' in
            let t' = rw e at t in
            elim (Bool-cases (mine j)) [
              | inl m ↦ let c' = rw m at c in rw m (omega arith)
              | inr m ↦ let c' = rw m at c in rw m (omega arith)
            ]
        | inr e ↦
            let g'' = rw e at g' in
            let t' = rw e at t in
            elim (Bool-cases (mine j)) [
              | inl m ↦ let c' = rw m at c in rw m (omega arith)
              | inr m ↦ let c' = rw m at c in rw m (omega arith)
            ]
      ]
