-- ===== src/WsServer/Connection/Accounts.antt =====
-- The pending requests of the task of a connection (ws-server/src/transport.rs), round by round.
use jsonrpsee.Base.{
  ℕ, ◌+◌, ◌<◌, List, [], ◌∷◌, ◌++◌, Option, none, some, Bool, true, false, Result, ok, err,
  if◌then◌else◌, ◌==◌, nat_eq, ◌≡◌, refl, inl, inr, arith, Bool-cases,
}
use jsonrpsee.Types.Request.{Request}
use jsonrpsee.Types.Response.{Response}
use jsonrpsee.WsServer.Server.{occurrences}
use jsonrpsee.WsServer.Server.Occurrences.{occurrences-append}
use jsonrpsee.WsServer.Transport.{FrontToBack, send, finished}
use jsonrpsee.WsServer.Connection.{
  left, right, Report, transmitted, failed, not_ready, Connection, Flow, again, returned, panicked,
  remove_pending, send_text, reported, on_packet, on_selected, return_pending, finish_pending,
}

-- What `remove_pending` does to the counts
pub data Removed (id : ℕ) (ids : List ℕ) : Option (List ℕ) → Type 0 where
  absent : occurrences id ids ≡ 0 → Removed id ids none
  present :
      {ids' : List ℕ}
      → ((j : ℕ) → occurrences j ids ≡ (if id == j then 1 else 0) + occurrences j ids')
      → Removed id ids (some ids')

Removed-cons :
    (id r : ℕ) (rs : List ℕ) (o : Option (List ℕ))
    → (r == id) ≡ false
    → Removed id rs o
    → Removed id (r ∷ rs) (elim o [ none ↦ none | some rs' ↦ some (r ∷ rs') ])
unfolding occurrences
Removed-cons id r rs none e (absent h) = absent (ground (arith, h))
Removed-cons id r rs (some rs') e (present h) = present (λ j. let k = h j in ground arith)

pub remove_pending-Removed : (id : ℕ) (ids : List ℕ) → Removed id ids (remove_pending id ids)
unfolding remove_pending occurrences
remove_pending-Removed id [] = absent refl
remove_pending-Removed id (r ∷ rs) = elim (Bool-cases (r == id)) [
  | inl e ↦ rw e (present (λ j. ground (arith, nat_eq.eqb_iff r id)))
  | inr e ↦ rw e (Removed-cons id r rs (remove_pending id rs) e (remove_pending-Removed id rs))
]

-- The ids of the requests that the server has been told of
abbrev pub told : {Value : Type 0} → List (ℕ × Request Value) → List ℕ
told [] = []
told ((id, rq) ∷ rs) = id ∷ told rs

pub told-append :
    {Value : Type 0} (j : ℕ) (rs ss : List (ℕ × Request Value))
    → occurrences j (told (rs ++ ss)) ≡ occurrences j (told rs) + occurrences j (told ss)
unfolding occurrences
told-append j [] ss = omega arith
told-append j ((id, rq) ∷ rs) ss = ground (arith, told-append j rs ss)

-- How often the server says that the request is finished
abbrev pub finishings : {Value : Type 0} → ℕ → List (FrontToBack Value) → ℕ
finishings j [] = 0
finishings j (send r ∷ ms) = finishings j ms
finishings j (finished id ∷ ms) = (if id == j then 1 else 0) + finishings j ms

module _ {Value : Type 0} where
  -- The requests that the server has been told of in between, and no others, have become pending.
  pub record Grown (c c' : Connection Value) : Type 0 where
    pub counts :
        (j : ℕ)
        → occurrences j c'.pending_requests + occurrences j (told c.new_requests)
          ≡ occurrences j c.pending_requests + occurrences j (told c'.new_requests)

  -- Where the flow goes on, its state is so; where it returns, it returns the pending requests.
  pub data Steady (c : Connection Value) : Flow Value → Type 0 where
    on : {c' : Connection Value} → Grown c c' → Steady c (again c')
    over :
        {c' : Connection Value}
        → c'.pending_requests ≡ c.pending_requests
        → c'.new_requests ≡ c.new_requests
        → Steady c (returned c'.pending_requests c')

  send_text-Steady :
      (takes : Bool) (r : Option (Response Value)) (c : Connection Value)
      → Steady c (send_text takes r c)
  unfolding send_text return_pending
  send_text-Steady true r c = on (record { counts = λ j. refl })
  send_text-Steady false r c = over refl refl

  reported-Steady :
      (report : Report) (id n : ℕ) (rq : Request Value) (c : Connection Value)
      → Steady c (reported report id rq (record c { next_request_id = n }))
  unfolding reported return_pending occurrences
  reported-Steady transmitted id n rq c = on (record {
    counts = λ j. ground (
      arith,
      occurrences-append j c.pending_requests (id ∷ []),
      told-append j c.new_requests ((id, rq) ∷ []),
    );
  })
  reported-Steady failed id n rq c = over refl refl
  reported-Steady not_ready id n rq c = over refl refl

  on_packet-Steady :
      (takes : Bool) (report : Report) (o : Option (Request Value)) (c : Connection Value)
      → Steady c (on_packet takes report o c)
  unfolding on_packet
  on_packet-Steady takes report none c = send_text-Steady takes _ c
  on_packet-Steady takes report (some rq) c = reported-Steady report c.next_request_id _ rq c

  module _ {Byte Foreign : Type 0} (parse : List Byte → Option (Request Value)) where
    -- A packet, or its absence, leaves the accounts right.
    pub left-Steady :
        (takes : Bool) (report : Report) (p : Option (Result (List Byte) Foreign))
        (c : Connection Value)
        → Steady c (on_selected parse takes report (left p) c)
    unfolding on_selected return_pending
    left-Steady takes report (some (ok bytes)) c = on_packet-Steady takes report (parse bytes) c
    left-Steady takes report (some (err e)) c = over refl refl
    left-Steady takes report none c = over refl refl

  -- What a message of the server does to the pending requests: a request that is said to be finished is
  -- taken out, and the task panics only when it is not pending.
  pub data Heard (m : FrontToBack Value) (c : Connection Value) : Flow Value → Type 0 where
    on :
        {c' : Connection Value}
        → ((j : ℕ)
            → occurrences j c.pending_requests
              ≡ finishings j (m ∷ []) + occurrences j c'.pending_requests)
        → c'.new_requests ≡ c.new_requests
        → Heard m c (again c')
    over :
        {c' : Connection Value}
        → c'.pending_requests ≡ c.pending_requests
        → c'.new_requests ≡ c.new_requests
        → Heard m c (returned c'.pending_requests c')
    lost :
        {c' : Connection Value}
        → ((j : ℕ) × (occurrences j c.pending_requests < finishings j (m ∷ [])))
        → c'.new_requests ≡ c.new_requests
        → Heard m c (panicked c')

  send-Heard :
      (takes : Bool) (r : Option (Response Value)) (c : Connection Value)
      → Heard (send r) c (send_text takes r c)
  unfolding send_text return_pending
  send-Heard true r c = on (λ j. omega arith) refl
  send-Heard false r c = over refl refl

  finished-Heard :
      (id : ℕ) (o : Option (List ℕ)) (c : Connection Value)
      → Removed id c.pending_requests o
      → Heard (finished id) c (finish_pending o c)
  unfolding finish_pending
  finished-Heard id none c (absent h) = lost (id, ground (arith, nat_eq.eqb_iff id id)) refl
  finished-Heard id (some ids) c (present h) = on (λ j. let k = h j in omega arith) refl

  pub right-Heard :
      {Byte : Type 0} (Foreign : Type 0) (parse : List Byte → Option (Request Value)) (takes : Bool)
      (report : Report) (m : FrontToBack Value) (c : Connection Value)
      → Heard m c (on_selected {Foreign = Foreign} parse takes report (right (some m)) c)
  unfolding on_selected
  right-Heard Foreign parse takes report (send r) c = send-Heard takes r c
  right-Heard Foreign parse takes report (finished id) c =
      finished-Heard id (remove_pending id c.pending_requests) c
        (remove_pending-Removed id c.pending_requests)
