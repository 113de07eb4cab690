-- ===== src/Http/ClientTransport/Exchanges.antt =====
-- When a request of http-client/src/transport.rs succeeds.
use mathlib.Core.List.{append-nil, append_assoc}
use jsonrpsee.Base.{
  ℕ, ◌+◌, ◌≤◌, List, [], ◌∷◌, ◌++◌, true, false, Result, ok, err, ltb, length, length-append, ◌≡◌,
  ◌↔◌, inl, inr, refl, sym, ap, ◌∙◌, arith, Bool-cases,
}
use jsonrpsee.Types.Request.{Request}
use jsonrpsee.Types.Response.{Response}
use jsonrpsee.Utils.Headers.{read_header_content_length}
use jsonrpsee.Http.Body.{GenericTransportError, read_chunks, read_response_to_body, or_zero}
use jsonrpsee.Http.Body.Bounds.{
  joined, all_ok, Reading, read, exceeded, failed, read_response_to_body-Reading,
}
use jsonrpsee.Http.ClientTransport.{
  HttpTransportClient, HttpReply, is_success, received, post, send_request, parsed, read_reply,
  send_request_and_wait_for_response, Error,
}

module _ {Byte F : Type 0} where
  -- Chunks that come without an error and fit the limit are read.
  read_chunks-all_ok :
      (limit : ℕ) (before : List Byte) (cs : List (List Byte))
      → length (before ++ joined cs) ≤ limit
      → read_chunks {Foreign = F} limit before (all_ok cs) ≡ ok (before ++ joined cs)
  unfolding read_chunks
  read_chunks-all_ok limit before [] h = rw (append-nil before) refl
  read_chunks-all_ok limit before (c ∷ cs) h =
      let a = length-append before (c ++ joined cs) in
      let b = length-append c (joined cs) in
      let q : ltb limit (length c + length before) ≡ false = ground arith in
      let e = append_assoc before c (joined cs) in
      rw (q, ← e) (read_chunks-all_ok limit (before ++ c) cs (rw (← e) at h))

  received-ok :
      (x : Result (HttpReply Byte F) F) (reply : HttpReply Byte F)
      → received x ≡ ok reply
      → (x ≡ ok reply) × (is_success reply.status ≡ true)
  unfolding received
  received-ok (err e) reply h = cc
  received-ok (ok y) reply h = elim (Bool-cases (is_success y.status)) [
    | inl q ↦
        let k = rw q at h in
        let same : y ≡ reply = ground (arith, k) in
        (ap ok same, sym (ap (λ (z : HttpReply Byte F). is_success z.status) same) ∙ q)
    | inr q ↦ let k = rw q at h in cc
  ]

module _ {Url Byte F : Type 0} (posts : Url → List Byte → Result (HttpReply Byte F) F) where
  post-ok :
      (b : Result (List Byte) F) (c : HttpTransportClient Url) (reply : HttpReply Byte F)
      → (post posts b c).0 ≡ ok reply
      → (body : List Byte) × (b ≡ ok body)
        × (length body ≤ c.max_request_body_size)
        × (posts c.target body ≡ ok reply)
        × (is_success reply.status ≡ true)
  unfolding post
  post-ok (err e) c reply h = cc
  post-ok (ok body) c reply h = elim (Bool-cases (ltb c.max_request_body_size (length body))) [
    | inl q ↦ let k = rw q at h in cc
    | inr q ↦
        let k = rw q at h in
        let (sent, good) = received-ok (posts c.target body) reply k in
        (body, refl, ground (arith, q), sent, good)
  ]

  post-made :
      (b : Result (List Byte) F) (body : List Byte) (c : HttpTransportClient Url)
      (reply : HttpReply Byte F)
      → b ≡ ok body
      → length body ≤ c.max_request_body_size
      → posts c.target body ≡ ok reply
      → is_success reply.status ≡ true
      → (post posts b c).0 ≡ ok reply
  unfolding post received
  post-made b body c reply e f a s =
      let q : ltb c.max_request_body_size (length body) ≡ false = ground arith in
      rw (e, q, a, s) refl

module _ {Byte Value F : Type 0} (from_slice : List Byte → Result (Response Value) F) where
  -- A reply whose body can be read and parsed
  pub record Readable (limit : ℕ) (reply : HttpReply Byte F) (r : Response Value) : Type 0 where
    pub announced : or_zero (read_header_content_length reply.headers) ≤ limit
    pub chunks : List (List Byte)
    pub whole : reply.body ≡ all_ok chunks
    pub short : length (joined chunks) ≤ limit
    pub parses : from_slice (joined chunks) ≡ ok r

  parsed-ok :
      (x : Result (List Byte) (GenericTransportError F)) (r : Response Value)
      → parsed from_slice x ≡ ok r
      → (bytes : List Byte) × (x ≡ ok bytes) × (from_slice bytes ≡ ok r)
  unfolding parsed
  parsed-ok (err e) r h = cc
  parsed-ok (ok bytes) r h = (bytes, refl, slice-ok (from_slice bytes) h)
    where
      slice-ok :
          (y : Result (Response Value) F)
          → elim y [ ok r ↦ ok r | err e ↦ err (Error.parse_error e) ] ≡ ok r
          → y ≡ ok r
      slice-ok (ok a) k = ground (arith, k)
      slice-ok (err e) k = cc

  Reading-ok :
      (limit : ℕ) (reply : HttpReply Byte F) (r : Response Value) (bytes : List Byte)
      (x : Result (List Byte) (GenericTransportError F))
      → or_zero (read_header_content_length reply.headers) ≤ limit
      → Reading limit [] reply.body x
      → x ≡ ok bytes
      → from_slice bytes ≡ ok r
      → Readable limit reply r
  Reading-ok limit reply r bytes x a (read cs w l e) h p =
      let same : joined cs ≡ bytes = ground (arith, e, h) in
      record { announced = a; chunks = cs; whole = w; short = l; parses = ap from_slice same ∙ p }
  Reading-ok limit reply r bytes x a (exceeded cs c rest w l m e) h p = cc
  Reading-ok limit reply r bytes x a (failed cs y rest w l e) h p = cc

  readable :
      (limit : ℕ) (reply : HttpReply Byte F) (r : Response Value) (y : Readable limit reply r)
      → read_response_to_body limit (read_header_content_length reply.headers) reply.body
        ≡ ok (joined y.chunks)
  unfolding read_response_to_body
  readable limit reply r y =
      let a = y.announced in
      let q : ltb limit (or_zero (read_header_content_length reply.headers)) ≡ false =
        ground arith in
      rw (q, y.whole) (read_chunks-all_ok limit [] y.chunks y.short)

  reply_iff :
      (limit : ℕ) (reply : HttpReply Byte F) (r : Response Value)
      → (read_reply from_slice limit (ok reply) ≡ ok r) ↔ Readable limit reply r
  unfolding read_reply parsed
  reply_iff limit reply r = (
    λ h.
        let (bytes, e, p) = parsed-ok _ r h in
        elim (read_response_to_body-Reading limit (read_header_content_length reply.headers)
          reply.body) [ inl (l, k) ↦ cc | inr (l, k) ↦ Reading-ok limit reply r bytes _ l k e p ],
    λ y. rw (readable limit reply r y, parsed, y.parses) refl,
  )

module _ {Url Byte Value F : Type 0} (to_vec : Request Value → Result (List Byte) F)
    (posts : Url → List Byte → Result (HttpReply Byte F) F)
    (from_slice : List Byte → Result (Response Value) F) where
  -- The request is serialized to a body that fits the limit, and the POST of that body is answered with
  -- a success whose own body fits the limit too and is parsed to the response.
  pub record Exchanged (rq : Request Value) (c : HttpTransportClient Url) (r : Response Value)
      : Type 0 where
    pub body : List Byte
    pub serializes : to_vec rq ≡ ok body
    pub fits : length body ≤ c.max_request_body_size
    pub reply : HttpReply Byte F
    pub answers : posts c.target body ≡ ok reply
    pub success : is_success reply.status ≡ true
    pub readable : Readable from_slice c.max_request_body_size reply r

  reply-ok :
      (limit : ℕ) (x : Result (HttpReply Byte F) (Error F)) (r : Response Value)
      → read_reply from_slice limit x ≡ ok r
      → (reply : HttpReply Byte F) × (x ≡ ok reply) × Readable from_slice limit reply r
  unfolding read_reply
  reply-ok limit (err e) r h = cc
  reply-ok limit (ok reply) r h = (reply, refl, (reply_iff from_slice limit reply r).0 h)

  -- The client gets a response for its request if and only if the request is serialized to a body that
  -- fits the limit, the POST of that body is answered with a status of success, the header of the answer
  -- announces no more than the limit, its chunks come without an error and fit the limit, and they are
  -- parsed to that response.
  pub wait_for_response_iff :
      (rq : Request Value) (c : HttpTransportClient Url) (r : Response Value)
      → ((send_request_and_wait_for_response to_vec posts from_slice rq c).0 ≡ ok r)
        ↔ Exchanged rq c r
  unfolding send_request_and_wait_for_response send_request
  wait_for_response_iff rq c r = (
    λ h.
        let (reply, e, y) = reply-ok c.max_request_body_size (post posts (to_vec rq) c).0 r h in
        let (body, v, f, a, s) = post-ok posts (to_vec rq) c reply e in
        record {
          body = body;
          serializes = v;
          fits = f;
          reply = reply;
          answers = a;
          success = s;
          readable = y;
        },
    λ x.
        ap (read_reply from_slice c.max_request_body_size)
          (post-made posts (to_vec rq) x.body c x.reply x.serializes x.fits x.answers x.success)
        ∙ (reply_iff from_slice c.max_request_body_size x.reply r).1 x.readable,
  )
