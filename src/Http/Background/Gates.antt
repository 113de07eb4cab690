-- ===== src/Http/Background/Gates.antt =====
-- What becomes of every request in `process_request` (http-server/src/transport/background.rs).
use jsonrpsee.Base.{
  ℕ, ◌+◌, ◌≤◌, ◌<◌, List, [], ◌∷◌, ◌++◌, Option, none, some, Bool, true, false, ◌&&◌, Result, ok,
  err, length, ◌≡◌, refl, arith, ◌⊎◌, inl, inr, Bool-cases, Option-cases,
}
use jsonrpsee.Base.Text.{Text, codes}
use jsonrpsee.Types.Request.{Request}
use jsonrpsee.Utils.Hosts.{Globs}
use jsonrpsee.Utils.Headers.{read_header_content_length}
use jsonrpsee.Utils.AccessControl.{
  AccessControl, HeaderValues, deny_host, deny_cors_origin, deny_cors_header,
}
use jsonrpsee.Http.Body.{GenericTransportError, read_response_to_body, or_zero}
use jsonrpsee.Http.Body.Bounds.{
  joined, all_ok, Reading, read, exceeded, failed, read_response_to_body-Reading,
}
use jsonrpsee.Http.Responses
use jsonrpsee.Http.Background.{
  HttpRequest, Reply, shut, dropped, responded, Outcome, is_json, forward, parsed, after_body,
  proceed, process_request,
}

and-left : (a b : Bool) → (a && b) ≡ true → a ≡ true
and-left a b h = ground arith

and-right : (a b : Bool) → (a && b) ≡ true → b ≡ true
and-right a b h = ground arith

module _ {Value Byte Foreign Glob Header : Type 0} (parse : List Byte → Option (Request Value))
    (show : Foreign → Text) (globs : Globs Glob) (values : HeaderValues Header) where
  module _ (ac : AccessControl Glob) (limit : ℕ) (rq : HttpRequest Byte Foreign) where
    -- One of the three checks of access control denies the request.
    abbrev pub Denied : Type 0
    Denied =
        (deny_host globs ac rq.headers ≡ true)
        ⊎ (deny_cors_origin values globs ac rq.headers ≡ true)
        ⊎ (deny_cors_header values ac rq.headers ≡ true)

    -- None does.
    abbrev pub Admitted : Type 0
    Admitted =
        (deny_host globs ac rq.headers ≡ false)
        × (deny_cors_origin values globs ac rq.headers ≡ false)
        × (deny_cors_header values ac rq.headers ≡ false)

    -- The request is admitted, a POST of JSON, and its body is announced to fit the limit.
    pub record Opened : Type 0 where
      pub admitted : Admitted
      pub post : rq.is_post ≡ true
      pub json : is_json (rq.headers.get_all (codes "content-type")) ≡ true
      pub announced : or_zero (read_header_content_length rq.headers) ≤ limit

    -- Besides, the body comes whole, fits the limit, and is parsed to a request.
    pub record Accepted (r : Request Value) : Type 0 where
      pub opened : Opened
      pub chunks : List (List Byte)
      pub whole : rq.body ≡ all_ok chunks
      pub fits : length (joined chunks) ≤ limit
      pub parses : parse (joined chunks) ≡ some r

    -- What becomes of the request, by its case.
    pub data Handled (reply : Reply Value) : Outcome Value → Type 0 where
      forbidden : {o : Outcome Value} → Denied → o.0.status ≡ 403 → o.1 ≡ none → Handled reply o
      no_method :
          Admitted
          → ((rq.is_post && is_json (rq.headers.get_all (codes "content-type"))) ≡ false)
          → Handled reply (Responses.method_not_allowed, none)
      announced_too_large :
          {o : Outcome Value}
          → Admitted
          → limit < or_zero (read_header_content_length rq.headers)
          → o.0.status ≡ 413
          → o.1 ≡ none
          → Handled reply o
      too_large :
          {o : Outcome Value} (cs : List (List Byte)) (c : List Byte)
          (rest : List (Result (List Byte) Foreign))
          → Opened
          → rq.body ≡ all_ok cs ++ (ok c ∷ rest)
          → length (joined cs) ≤ limit
          → limit < length (joined cs) + length c
          → o.0.status ≡ 413
          → o.1 ≡ none
          → Handled reply o
      unread :
          (cs : List (List Byte)) (e : Foreign) (rest : List (Result (List Byte) Foreign))
          → Opened
          → rq.body ≡ all_ok cs ++ (err e ∷ rest)
          → length (joined cs) ≤ limit
          → Handled reply (Responses.internal_error (show e), none)
      unparsed :
          (cs : List (List Byte))
          → Opened
          → rq.body ≡ all_ok cs
          → length (joined cs) ≤ limit
          → parse (joined cs) ≡ none
          → Handled reply (Responses.parse_error, none)
      server_gone :
          {o : Outcome Value} (r : Request Value)
          → Accepted r
          → reply ≡ shut
          → o.0.status ≡ 500
          → o.1 ≡ none
          → Handled reply o
      unanswered :
          {o : Outcome Value} (r : Request Value)
          → Accepted r
          → reply ≡ dropped
          → o.0.status ≡ 500
          → o.1 ≡ some r
          → Handled reply o
      answered :
          (r : Request Value) (h : Responses.HttpResponse Value)
          → Accepted r
          → reply ≡ responded h
          → Handled reply (h, some r)

    forward-Handled :
        (r : Request Value) (reply : Reply Value) → Accepted r → Handled reply (forward r reply)
    unfolding forward Responses.internal_error
    forward-Handled r shut a = server_gone r a refl refl refl
    forward-Handled r dropped a = unanswered r a refl refl refl
    forward-Handled r (responded h) a = answered r h a refl

    parsed-Handled :
        (cs : List (List Byte)) (reply : Reply Value)
        → Opened
        → rq.body ≡ all_ok cs
        → length (joined cs) ≤ limit
        → Handled reply (parsed (parse (joined cs)) reply)
    unfolding parsed
    parsed-Handled cs reply o b l = elim (Option-cases (parse (joined cs))) [
      | inl e ↦ rw e (unparsed cs o b l e)
      | inr (r, e) ↦ rw e (
          forward-Handled r reply
            (record { opened = o; chunks = cs; whole = b; fits = l; parses = e }))
    ]

    after_body-Handled :
        (reply : Reply Value) (b : Result (List Byte) (GenericTransportError Foreign))
        → Opened
        → Reading limit [] rq.body b
        → Handled reply (after_body parse show b reply)
    unfolding after_body Responses.too_large
    after_body-Handled reply b o (read cs w l e) = rw e (parsed-Handled cs reply o w l)
    after_body-Handled reply b o (exceeded cs c rest w l m e) =
        rw e (too_large cs c rest o w l m refl refl)
    after_body-Handled reply b o (failed cs x rest w l e) = rw e (unread cs x rest o w l)

    proceed-Handled :
        (reply : Reply Value) → Admitted → Handled reply (proceed parse show limit rq reply)
    unfolding proceed Responses.too_large
    proceed-Handled reply a =
        elim (Bool-cases (rq.is_post && is_json (rq.headers.get_all (codes "content-type")))) [
          | inr q ↦ rw q (no_method a q)
          | inl q ↦
              elim (read_response_to_body-Reading limit (read_header_content_length rq.headers)
                rq.body) [
                  | inl (l, e) ↦ rw (q, e) (announced_too_large a l refl refl)
                  | inr (l, r) ↦ rw q (
                      after_body-Handled reply
                        (read_response_to_body limit (read_header_content_length rq.headers)
                          rq.body)
                        (record {
                          admitted = a;
                          post = and-left _ _ q;
                          json = and-right _ _ q;
                          announced = l;
                        })
                        r)
                ]
        ]

    -- Every request is handled in one of nine ways: it is refused with status 403 when access control
    -- denies its host, origin or headers; with 405 when it is no POST of JSON; with 413 when its body is
    -- announced to exceed the limit, or does at some chunk; with the error of the body; or with a parse
    -- error. Only else does it reach the server, if that is there, and the response is the server's, or
    -- status 500 when it is gone or drops the request.
    pub process_request-Handled :
        (reply : Reply Value)
        → Handled reply (process_request parse show globs values ac limit rq reply)
    unfolding process_request Responses.host_not_allowed Responses.invalid_allow_origin
        Responses.invalid_allow_headers
    process_request-Handled reply = elim (Bool-cases (deny_host globs ac rq.headers)) [
      | inl e ↦ rw e (forbidden (inl e) refl refl)
      | inr e ↦ elim (Bool-cases (deny_cors_origin values globs ac rq.headers)) [
        | inl e' ↦ rw (e, e') (forbidden (inr (inl e')) refl refl)
        | inr e' ↦ elim (Bool-cases (deny_cors_header values ac rq.headers)) [
          | inl e'' ↦ rw (e, e', e'') (forbidden (inr (inr e'')) refl refl)
          | inr e'' ↦ rw (e, e', e'') (proceed-Handled reply (e, e', e''))
        ]
      ]
    ]
