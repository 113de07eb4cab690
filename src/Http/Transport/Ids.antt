-- ===== src/Http/Transport/Ids.antt =====
-- The ids of open requests in http-server/src/transport/mod.rs.
use jsonrpsee.Base.{
  ℕ, ◌+◌, ◌<◌, [], ◌∷◌, ◌++◌, none, some, true, ok, ltb, nat_eq, ◌==◌, ◌≡◌, refl, arith,
  Option-cases, Bool-cases, inl, inr, beq_refl, beq_sound,
}
use jsonrpsee.Base.Dict
use jsonrpsee.Base.Dict.{Dict}
use jsonrpsee.Base.Dict.Laws.{get-insert, remove-insert}
use jsonrpsee.Types.Request.{Request}
use jsonrpsee.Types.Response.{Response}
use jsonrpsee.Batches.{u64_mod}
use jsonrpsee.Http.Transport.{
  HttpTransportServer, TransportServerEvent, next_request, finish, finish_with,
}

module _ {Value SendBack : Type 0} where
  -- Every open request has an id below the next one.
  abbrev pub Below : HttpTransportServer Value SendBack → Type 0
  Below t = (id : ℕ) (c : SendBack) → Dict.get t.requests id ≡ some c → id < t.next_request_id

  next-unused :
      (t : HttpTransportServer Value SendBack)
      → Below t
      → Dict.get t.requests t.next_request_id ≡ none
  next-unused t h = elim (Option-cases (Dict.get t.requests t.next_request_id)) [
    | inl e ↦ e
    | inr (c, e) ↦ let k = h t.next_request_id c e in absurd (omega arith)
  ]

  inserted-Below :
      (t : HttpTransportServer Value SendBack) (c d : SendBack) (id : ℕ)
      → Below t
      → Dict.get (Dict.insert t.requests t.next_request_id c) id ≡ some d
      → id < t.next_request_id + 1
  inserted-Below t c d id h e = elim (Bool-cases (t.next_request_id == id)) [
    | inl q ↦ let k = beq_sound t.next_request_id id q in omega arith
    | inr q ↦
        let k = h id d (rw (get-insert t.requests t.next_request_id id c, q) at e) in omega arith
  ]

  -- While ids are left, a request comes under an id that is not in use; finishing it with a response then
  -- succeeds, sends that response to that request's own channel, and leaves the open requests as they were
  -- before it came.
  pub finish-next_request :
      (rq : Request Value) (c : SendBack) (r : Response Value)
      (t : HttpTransportServer Value SendBack)
      → Below t
      → t.next_request_id + 1 < u64_mod
      → ((next_request (some (rq, c)) t).0
          ≡ some (TransportServerEvent.request t.next_request_id rq))
        × Below (next_request (some (rq, c)) t).1
        × ((finish t.next_request_id (some r) (next_request (some (rq, c)) t).1).0 ≡ ok tt)
        × ((finish t.next_request_id (some r) (next_request (some (rq, c)) t).1).1.responded
            ≡ t.responded ++ ((c, some r) ∷ []))
        × ((j : ℕ)
            → Dict.get
                (finish t.next_request_id (some r) (next_request (some (rq, c)) t).1).1.requests
                j
              ≡ Dict.get t.requests j)
  unfolding next_request finish finish_with
  finish-next_request rq c r t h l =
      let q : ltb (t.next_request_id + 1) u64_mod ≡ true = ground arith in
      let at : Dict.get (Dict.insert t.requests t.next_request_id c) t.next_request_id ≡ some c =
        rw (get-insert t.requests t.next_request_id t.next_request_id c, beq_refl t.next_request_id)
          refl in
      rw q (
        refl,
        (λ id d e. inserted-Below t c d id h e),
        rw at refl,
        rw at refl,
        λ j.
            rw (at, finish_with, remove-insert t.requests t.next_request_id c (next-unused t h))
              refl,
      )
