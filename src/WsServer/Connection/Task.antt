-- ===== src/WsServer/Connection/Task.antt =====
-- What `per_connection_task` (ws-server/src/transport.rs) returns.
use jsonrpsee.Base.{
  ℕ, ◌+◌, ◌%◌, ◌<◌, List, [], ◌∷◌, ◌++◌, Option, none, some, Bool, true, false, Result, nat_eq, ◌≡◌,
  refl, ap, arith, ◌&&◌, ◌⊎◌, inl, inr,
}
use jsonrpsee.Types.Request.{Request}
use jsonrpsee.Batches.{u64_mod}
use jsonrpsee.WsServer.Server.{occurrences}
use jsonrpsee.WsServer.Transport.{FrontToBack}
use jsonrpsee.WsServer.Connection.{
  Selected, left, right, Round, Connection, Flow, again, returned, panicked, round, rounds,
  on_selected, return_pending, per_connection_task,
}
use jsonrpsee.WsServer.Connection.Accounts.{
  told, Steady, on, over, left-Steady, finishings, Heard, lost, right-Heard,
}
use jsonrpsee.WsServer.Connection.Balance.{finishings-append}

module _ {Value Byte : Type 0} (Foreign : Type 0) (parse : List Byte → Option (Request Value)) where
  -- the state in which the round finds the shared counter
  abbrev pub seen : Round Value Byte Foreign → Connection Value → Connection Value
  seen w c = record c { next_request_id = (c.next_request_id + w.others) % u64_mod }

  pub round-left :
      (w : Round Value Byte Foreign) (p : Option (Result (List Byte) Foreign))
      (c : Connection Value)
      → w.selected ≡ left p
      → Steady (seen w c) (round parse w c)
  unfolding round
  round-left w p c s = rw s (left-Steady parse w.takes w.report p (seen w c))

  pub round-right :
      (w : Round Value Byte Foreign) (m : FrontToBack Value) (c : Connection Value)
      → w.selected ≡ right (some m)
      → Heard m (seen w c) (round parse w c)
  unfolding round
  round-right w m c s = rw s (right-Heard Foreign parse w.takes w.report m (seen w c))

-- The messages of the server that a round, and a list of rounds, hand to the task
abbrev pub said :
    {Value Byte Foreign : Type 0} → Selected Value Byte Foreign → List (FrontToBack Value)
said (left p) = []
said (right none) = []
said (right (some m)) = m ∷ []

abbrev pub heard :
    {Value Byte Foreign : Type 0} → List (Round Value Byte Foreign) → List (FrontToBack Value)
heard [] = []
heard (w ∷ ws) = said w.selected ++ heard ws

module _ {Value : Type 0} where
  -- The requests of which the server has been told in between have become pending, less those that the
  -- messages say are finished.
  abbrev pub Owed : List (FrontToBack Value) → Connection Value → Connection Value → Type 0
  Owed ms c c' =
      (j : ℕ)
      → occurrences j c'.pending_requests + (finishings j ms + occurrences j (told c.new_requests))
        ≡ occurrences j c.pending_requests + occurrences j (told c'.new_requests)

  -- One round that hands these messages to the task
  data One (ms : List (FrontToBack Value)) (c : Connection Value) : Flow Value → Type 0 where
    goes_on : {c' : Connection Value} → Owed ms c c' → One ms c (again c')
    ends :
        {c' : Connection Value}
        → c'.pending_requests ≡ c.pending_requests
        → c'.new_requests ≡ c.new_requests
        → One ms c (returned c'.pending_requests c')
    fails :
        {c' : Connection Value} (j : ℕ)
        → occurrences j c.pending_requests < finishings j ms
        → c'.new_requests ≡ c.new_requests
        → One ms c (panicked c')

  Steady-One : (c : Connection Value) (f : Flow Value) → Steady c f → One [] c f
  Steady-One c f (on g) = goes_on (λ j. let k = g.counts j in omega arith)
  Steady-One c f (over h k) = ends h k

  Heard-One :
      (m : FrontToBack Value) (c : Connection Value) (f : Flow Value)
      → Heard m c f
      → One (m ∷ []) c f
  Heard-One m c f (Heard.on h k) =
      goes_on (λ j. let a = h j in let b = ap (λ rs. occurrences j (told rs)) k in omega arith)
  Heard-One m c f (Heard.over h k) = ends h k
  Heard-One m c f (lost (j, h) k) = fails j h k

module _ {Value Byte Foreign : Type 0} where
  -- What a run of the loop comes to: it waits; or it returns after some rounds; or it panics in a round
  -- with a message that a request is finished, of which the server was told less often than messages
  -- have said so.
  pub data Went (c : Connection Value) (ws : List (Round Value Byte Foreign))
      : Flow Value → Type 0 where
    waits : {c' : Connection Value} → Owed (heard ws) c c' → Went c ws (again c')
    ended :
        {c' : Connection Value} (us : List (Round Value Byte Foreign))
        (w : Round Value Byte Foreign) (vs : List (Round Value Byte Foreign))
        → ws ≡ us ++ (w ∷ vs)
        → Owed (heard us) c c'
        → Went c ws (returned c'.pending_requests c')
    failed :
        {c' : Connection Value} (us : List (Round Value Byte Foreign))
        (w : Round Value Byte Foreign) (vs : List (Round Value Byte Foreign)) (j : ℕ)
        → ws ≡ us ++ (w ∷ vs)
        → occurrences j c.pending_requests + occurrences j (told c'.new_requests)
          < finishings j (heard us)
            + (finishings j (said w.selected) + occurrences j (told c.new_requests))
        → Went c ws (panicked c')

  -- a round before the others
  after_round :
      (w : Round Value Byte Foreign) (ws : List (Round Value Byte Foreign))
      (c c' : Connection Value) (f : Flow Value)
      → Owed (said w.selected) c c'
      → Went c' ws f
      → Went c (w ∷ ws) f
  after_round w ws c c' f o (waits h) = waits (λ j.
      let a = o j in
      let b = h j in let k = finishings-append j (said w.selected) (heard ws) in omega arith)
  after_round w ws c c' f o (ended us v vs e h) = ended (w ∷ us) v vs (ap (λ l. w ∷ l) e) (λ j.
      let a = o j in
      let b = h j in let k = finishings-append j (said w.selected) (heard us) in omega arith)
  after_round w ws c c' f o (failed us v vs j e h) =
      failed (w ∷ us) v vs j (ap (λ l. w ∷ l) e)
        (let a = o j in let k = finishings-append j (said w.selected) (heard us) in omega arith)

  first_round :
      (w : Round Value Byte Foreign) (ws : List (Round Value Byte Foreign)) (c : Connection Value)
      (f : Flow Value) (rest : Connection Value → Flow Value)
      → One (said w.selected) c f
      → ((c' : Connection Value) → Went c' ws (rest c'))
      → Went c (w ∷ ws) (elim f [
        | again c' ↦ rest c'
        | returned ids c' ↦ returned ids c'
        | panicked c' ↦ panicked c'
      ])
  first_round w ws c f rest (goes_on {c'} o) later = after_round w ws c c' (rest c') o (later c')
  first_round w ws c f rest (ends h k) later = ended [] w ws refl (λ j.
      let a = ap (occurrences j) h in let b = ap (λ rs. occurrences j (told rs)) k in omega arith)
  first_round w ws c f rest (fails j h k) later =
      failed [] w ws j refl (let b = ap (λ rs. occurrences j (told rs)) k in omega arith)

module _ {Value Byte : Type 0} (Foreign : Type 0) (parse : List Byte → Option (Request Value)) where
  seen-One :
      (w : Round Value Byte Foreign) (ms : List (FrontToBack Value)) (c : Connection Value)
      (f : Flow Value)
      → One ms (seen Foreign parse w c) f
      → One ms c f
  seen-One w ms c f (goes_on o) = goes_on o
  seen-One w ms c f (ends h k) = ends h k
  seen-One w ms c f (fails j h k) = fails j h k

  selected-One :
      (w : Round Value Byte Foreign) (c : Connection Value) (x : Selected Value Byte Foreign)
      → w.selected ≡ x
      → One (said x) c (round parse w c)
  unfolding round
  selected-One w c (left p) s =
      seen-One w [] c (round parse w c)
        (Steady-One (seen Foreign parse w c) (round parse w c) (round-left Foreign parse w p c s))
  selected-One w c (right (some m)) s =
      seen-One w (m ∷ []) c (round parse w c)
        (Heard-One m (seen Foreign parse w c) (round parse w c) (round-right Foreign parse w m c s))
  selected-One w c (right none) s = rw (s, on_selected, return_pending) (ends refl refl)

  rounds-Went :
      (ws : List (Round Value Byte Foreign)) (c : Connection Value) → Went c ws (rounds parse ws c)
  unfolding rounds
  rounds-Went [] c = waits (λ j. omega arith)
  rounds-Went (w ∷ ws) c =
      first_round w ws c (round parse w c) (rounds parse ws) (selected-One w c w.selected refl)
        (rounds-Went ws)

  -- the state in which the loop starts
  abbrev pub opening : ℕ → Connection Value
  opening counted = record {
    pending_requests = [];
    next_request_id = counted;
    new_requests = [];
    texts = [];
  }

  -- The task returns no request when the handshake fails. Else, for every list of rounds, it waits for
  -- more, or returns after some rounds, and then the requests that are pending, and are returned, are
  -- those of which the server has been told, less those that its messages have said are finished, each as
  -- often; or it panics, and then a message has said that a request is finished more often than the
  -- server was told of it.
  pub per_connection_task-Went :
      (handshake accepted : Bool) (counted : ℕ) (ws : List (Round Value Byte Foreign))
      → (((handshake && accepted) ≡ false)
          × (per_connection_task parse handshake accepted counted ws
              ≡ returned [] (opening counted)))
        ⊎ Went (opening counted) ws (per_connection_task parse handshake accepted counted ws)
  unfolding per_connection_task
  per_connection_task-Went true true counted ws = inr (rounds-Went ws (opening counted))
  per_connection_task-Went true false counted ws = inl (refl, refl)
  per_connection_task-Went false accepted counted ws = inl (refl, refl)
