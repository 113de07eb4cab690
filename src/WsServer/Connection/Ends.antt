-- ===== src/WsServer/Connection/Ends.antt =====
-- That the task of a connection (ws-server/src/transport.rs) finds each request that the server says is
-- finished, and returns each that is open.
use jsonrpsee.Base.{
  ℕ, ◌+◌, List, [], ◌∷◌, ◌++◌, Option, none, some, Bool, true, Result, nat_eq, ◌≡◌, refl, ap, ◌∙◌,
  inl, inr, arith, Bool-cases, In,
}
use jsonrpsee.Base.Dict
use jsonrpsee.Types.Request.{Request}
use jsonrpsee.WsServer.Server.{occurrences}
use jsonrpsee.WsServer.Transport.{WsTransportServer, closed, Sender, FrontToBack, close_requests}
use jsonrpsee.WsServer.Connection.Closings.{close_requests-closed}
use jsonrpsee.WsServer.Connection.{
  Selected, left, right, Round, Connection, Flow, again, returned, round, on_selected,
  return_pending,
}
use jsonrpsee.WsServer.Connection.Accounts.{
  told-append, Grown, Steady, on, over, finishings, Heard, lost,
}
use jsonrpsee.WsServer.Connection.Task.{seen, round-left, round-right}
use jsonrpsee.WsServer.Connection.Link.{
  Net, Step, packet, message, arrives, finishes, sends, elsewhere, Opens, Run, start, then_step,
  Offered, from_socket, from_server, server_gone,
}
use jsonrpsee.WsServer.Connection.Balance.{
  Balance, held, finishings-append, finishes-Balance, sends-Balance, arrives-Balance, Opens-Balance,
}

module _ {Value : Type 0} where
  Steady-again : (c c' : Connection Value) → Steady c (again c') → Grown c c'
  Steady-again c c' (on g) = g

  Heard-again :
      (m : FrontToBack Value) (c c' : Connection Value) (j : ℕ)
      → Heard m c (again c')
      → occurrences j c.pending_requests ≡ finishings j (m ∷ []) + occurrences j c'.pending_requests
  Heard-again m c c' j (Heard.on h k) = h j

module _ {Value Byte : Type 0} (Foreign : Type 0) (parse : List Byte → Option (Request Value))
    (mine : ℕ → Bool) where
  packet-Balance :
      (n : Net Value) (w : Round Value Byte Foreign) (p : Option (Result (List Byte) Foreign))
      (c : Connection Value) (new : List (ℕ × Request Value))
      → Balance mine n
      → w.selected ≡ left p
      → round parse w n.connection ≡ again c
      → c.new_requests ≡ n.connection.new_requests ++ new
      → Balance mine (record n { connection = c; queue = n.queue ++ new })
  packet-Balance n w p c new b s h e j =
      let g =
        Steady-again (seen Foreign parse w n.connection) c
          (rw h at (round-left Foreign parse w p n.connection s)) in
      let k = rw e at (g.counts j) in
      let t = told-append j n.connection.new_requests new in
      let q = told-append j n.queue new in let d = b j in omega arith

  message-Balance :
      (n : Net Value) (w : Round Value Byte Foreign) (m : FrontToBack Value)
      (rest : List (FrontToBack Value)) (c : Connection Value)
      → Balance mine n
      → w.selected ≡ right (some m)
      → n.inbox ≡ m ∷ rest
      → round parse w n.connection ≡ again c
      → Balance mine (record n { connection = c; inbox = rest })
  message-Balance n w m rest c b s i h j =
      let k =
        Heard-again m (seen Foreign parse w n.connection) c j
          (rw h at (round-right Foreign parse w m n.connection s)) in
      let a = finishings-append j (m ∷ []) rest in
      let f = ap (finishings j) i in let d = b j in omega arith

  elsewhere-Balance :
      (n : Net Value) (s : WsTransportServer Value)
      → Balance mine n
      → ((j : ℕ) → mine j ≡ true → Dict.get s.to_connections j ≡ Dict.get n.server.to_connections j)
      → Balance mine (record n { server = s })
  elsewhere-Balance n s b h j = elim (Bool-cases (mine j)) [
    | inl e ↦ let q = ap held (h j e) in let d = rw e at (b j) in rw e (omega arith)
    | inr e ↦ let d = rw e at (b j) in rw e (omega arith)
  ]

  Step-Balance :
      (n n' : Net Value) → Balance mine n → Step Foreign parse mine n n' → Balance mine n'
  Step-Balance n n' b (packet w p c new s h e) = packet-Balance n w p c new b s h e
  Step-Balance n n' b (message w m rest c s i h) = message-Balance n w m rest c b s i h
  Step-Balance n n' b (arrives id rq rest q p) = arrives-Balance mine n id rq rest b q p
  Step-Balance n n' b (finishes id r xs own h) = finishes-Balance mine n id r xs b own h
  Step-Balance n n' b (sends id r xs own h) = sends-Balance mine n id r xs b h
  Step-Balance n n' b (elsewhere s h) = elsewhere-Balance n s b h

  Run-Balance : (n n' : Net Value) → Balance mine n → Run Foreign parse mine n n' → Balance mine n'
  Run-Balance n n' b start = b
  Run-Balance n n' b (then_step {m} {m'} r s) = Step-Balance m n' (Run-Balance n m b r) s

  -- The round of a connection on what `select` can return: it goes on, or returns the requests that are
  -- pending in the task.
  pub data Sound (n : Net Value) : Flow Value → Type 0 where
    goes_on : {c : Connection Value} → Sound n (again c)
    ends :
        {ids : List ℕ} {c : Connection Value}
        → ids ≡ n.connection.pending_requests
        → Sound n (returned ids c)

  Sound-pending :
      (n : Net Value) (ids : List ℕ) (c : Connection Value)
      → Sound n (returned ids c)
      → ids ≡ n.connection.pending_requests
  Sound-pending n ids c (ends e) = e

  Steady-Sound :
      (n : Net Value) (c : Connection Value) (f : Flow Value)
      → c.pending_requests ≡ n.connection.pending_requests
      → Steady c f
      → Sound n f
  Steady-Sound n c f e (on g) = goes_on
  Steady-Sound n c f e (over h k) = ends (h ∙ e)

  Heard-Sound :
      (n : Net Value) (m : FrontToBack Value) (rest : List (FrontToBack Value))
      (c : Connection Value) (f : Flow Value)
      → Balance mine n
      → n.inbox ≡ m ∷ rest
      → c.pending_requests ≡ n.connection.pending_requests
      → Heard m c f
      → Sound n f
  Heard-Sound n m rest c f b i e (Heard.on h k) = goes_on
  Heard-Sound n m rest c f b i e (Heard.over h k) = ends (h ∙ e)
  Heard-Sound n m rest c f b i e (lost (j, h) same) =
      let a = finishings-append j (m ∷ []) rest in
      let k = ap (finishings j) i in
      let q = ap (occurrences j) e in let d = b j in absurd (omega arith)

  round-Sound :
      (n : Net Value) (w : Round Value Byte Foreign) (x : Selected Value Byte Foreign)
      → Balance mine n
      → w.selected ≡ x
      → Offered n x
      → Sound n (round parse w n.connection)
  unfolding round
  round-Sound n w x b s (from_socket p) =
      Steady-Sound n (seen Foreign parse w n.connection) (round parse w n.connection) refl
        (round-left Foreign parse w p n.connection s)
  round-Sound n w x b s (from_server m rest i) =
      Heard-Sound n m rest (seen Foreign parse w n.connection) (round parse w n.connection) b i refl
        (round-right Foreign parse w m n.connection s)
  round-Sound n w x b s server_gone = rw (s, on_selected, return_pending) (ends refl)

  -- The task of a connection, from its start and whatever happened to its packets, its messages and the
  -- server's requests, does not panic in its next round: it goes on, or returns the requests that are
  -- pending.
  pub Run-Sound :
      (n n' : Net Value) (w : Round Value Byte Foreign)
      → Opens mine n
      → Run Foreign parse mine n n'
      → Offered n' w.selected
      → Sound n' (round parse w n'.connection)
  Run-Sound n n' w o r x =
      round-Sound n' w w.selected (Run-Balance n n' (Opens-Balance mine n o) r) refl x

  -- When the task of a connection returns, from its start and whatever happened before, each request of
  -- the connection that is open at the server is open no more after the server has handled what the task
  -- returns, and the event that it is closed is pending.
  pub Run-closed :
      (n n' : Net Value) (w : Round Value Byte Foreign) (ids : List ℕ) (c : Connection Value)
      (j : ℕ) (s : Sender)
      → Opens mine n
      → Run Foreign parse mine n n'
      → Offered n' w.selected
      → round parse w n'.connection ≡ returned ids c
      → mine j ≡ true
      → Dict.get n'.server.to_connections j ≡ some s
      → (Dict.get (close_requests ids n'.server).to_connections j ≡ none)
        × In (closed j) (close_requests ids n'.server).pending_events
  Run-closed n n' w ids c j s o r x e own h =
      let b = rw (own, h) at (Run-Balance n n' (Opens-Balance mine n o) r j) in
      let p = Sound-pending n' ids c (rw e at (Run-Sound n n' w o r x)) in
      let q = ap (occurrences j) p in close_requests-closed ids j s n'.server h (omega arith)
