-- ===== src/Http/Client/Replies.antt =====
-- Which answers a call of the HTTP client (http-client/src/client.rs) accepts.
use jsonrpsee.Base.{
  ℕ, String, Result, ok, err, nat_eq, ◌==◌, ◌≡◌, ◌↔◌, refl, Bool-cases, inl, inr, beq_refl,
  beq_sound, ap,
}
use jsonrpsee.Types.Errors.{Error, ClientError}
use jsonrpsee.Types.Params.{Params}
use jsonrpsee.Types.Request.{CallId}
use jsonrpsee.Types.Response.{Output, Response, Success, output_id, output_value}
use jsonrpsee.Http.Client.{HttpClient, check_id, process_response, receive, request}

module _ {Value Foreign : Type 0} where
  -- The answer is one success with the id of the call, and its result is the value.
  abbrev pub Succeeds : ℕ → Result (Response Value) Foreign → Value → Type 0
  Succeeds id answer v =
      (s : Success Value) × (answer ≡ ok (Response.single (Output.success s)))
      × (s.id ≡ CallId.num id)
      × (s.result ≡ v)

  check_id-ok :
      (i : CallId) (id : ℕ) (r : Result Value (Error Value)) (v : Value)
      → check_id {Foreign = Foreign} i id r ≡ ok v
      → (i ≡ CallId.num id) × (r ≡ ok v)
  unfolding check_id
  check_id-ok (CallId.num n) id (ok x) v h = elim (Bool-cases (n == id)) [
    | inl q ↦
        let same : n ≡ id = beq_sound n id q in
        let got : Result Value (ClientError Value Foreign) = ok x in
        let found : got ≡ ok v = rw q at h in (ap (λ m. CallId.num m) same, ap (λ y. ok y) cc)
    | inr q ↦ cc (rw q at h)
  ]
  check_id-ok (CallId.num n) id (err e) v h = elim (Bool-cases (n == id)) [
    | inl q ↦ cc (rw q at h)
    | inr q ↦ cc (rw q at h)
  ]
  check_id-ok CallId.null id r v h = cc
  check_id-ok (CallId.str s) id r v h = cc

  receive-Succeeds :
      (id : ℕ) (answer : Result (Response Value) Foreign) (v : Value)
      → receive id answer ≡ ok v
      → Succeeds id answer v
  unfolding receive process_response output_id output_value
  receive-Succeeds id (err f) v h = cc
  receive-Succeeds id (ok (Response.batch os)) v h = cc
  receive-Succeeds id (ok (Response.notif n)) v h = cc
  receive-Succeeds id (ok (Response.single (Output.success s))) v h =
      let k = check_id-ok s.id id (ok s.result) v h in (s, refl, k.0, cc)
  receive-Succeeds id (ok (Response.single (Output.failure s))) v h =
      let k = check_id-ok s.id id (err s.error) v h in cc

  Succeeds-receive :
      (id : ℕ) (answer : Result (Response Value) Foreign) (v : Value)
      → Succeeds id answer v
      → receive id answer ≡ ok v
  unfolding receive process_response output_id output_value check_id
  Succeeds-receive id answer v (s, e, i, r) = rw (e, i, beq_refl id, r) refl

  -- A call returns a value if and only if the server answers with one success that has the call's own
  -- id and that value as its result.
  pub request-Succeeds :
      (method : String) (params : Params Value) (answer : Result (Response Value) Foreign)
      (c : HttpClient Value) (v : Value)
      → ((request method params answer c).0 ≡ ok v) ↔ Succeeds c.request_id answer v
  unfolding request
  request-Succeeds method params answer c v =
      (receive-Succeeds c.request_id answer v, Succeeds-receive c.request_id answer v)
