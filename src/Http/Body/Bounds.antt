-- ===== src/Http/Body/Bounds.antt =====
-- What `read_response_to_body` (utils/src/http/hyper_helpers.rs) accepts.
use mathlib.Core.List.{append-nil, append_assoc}
use jsonrpsee.Base.{
  ℕ, ◌+◌, ◌≤◌, ◌<◌, List, [], ◌∷◌, ◌++◌, Option, Result, ok, err, ltb, length, length-append, ◌≡◌,
  refl, sym, ap, ◌∙◌, arith, Bool-cases, inl, inr, ◌⊎◌,
}
use jsonrpsee.Http.Body.{
  GenericTransportError, too_large, inner, read_chunks, read_response_to_body, or_zero,
}

-- all bytes of some chunks
abbrev pub joined : {Byte : Type 0} → List (List Byte) → List Byte
joined [] = []
joined (c ∷ cs) = c ++ joined cs

module _ {Byte Foreign : Type 0} where
  -- the chunks that hyper yields without an error
  abbrev pub all_ok : List (List Byte) → List (Result (List Byte) Foreign)
  all_ok [] = []
  all_ok (c ∷ cs) = ok c ∷ all_ok cs

  -- How reading ends, with so many bytes received before.
  pub data Reading (limit : ℕ) (received : List Byte) (body : List (Result (List Byte) Foreign))
      (r : Result (List Byte) (GenericTransportError Foreign)) : Type 0 where
    -- every chunk came, and they fit
    read :
        (cs : List (List Byte))
        → body ≡ all_ok cs
        → length (received ++ joined cs) ≤ limit
        → r ≡ ok (received ++ joined cs)
        → Reading limit received body r
    -- the chunks fit up to one, and not with it
    exceeded :
        (cs : List (List Byte)) (c : List Byte) (rest : List (Result (List Byte) Foreign))
        → body ≡ all_ok cs ++ (ok c ∷ rest)
        → length (received ++ joined cs) ≤ limit
        → limit < length (received ++ joined cs) + length c
        → r ≡ err too_large
        → Reading limit received body r
    -- an error came after chunks that fit
    failed :
        (cs : List (List Byte)) (e : Foreign) (rest : List (Result (List Byte) Foreign))
        → body ≡ all_ok cs ++ (err e ∷ rest)
        → length (received ++ joined cs) ≤ limit
        → r ≡ err (inner e)
        → Reading limit received body r

  more :
      (limit : ℕ) (received c : List Byte) (body : List (Result (List Byte) Foreign))
      (r : Result (List Byte) (GenericTransportError Foreign))
      → Reading limit (received ++ c) body r
      → Reading limit received (ok c ∷ body) r
  more limit received c body r (read cs b l e) =
      read (c ∷ cs) (ap (λ xs. ok c ∷ xs) b) (rw (sym (append_assoc received c (joined cs))) l)
        (e ∙ ap (λ xs. ok xs) (append_assoc received c (joined cs)))
  more limit received c body r (exceeded cs d rest b l m e) =
      exceeded (c ∷ cs) d rest (ap (λ xs. ok c ∷ xs) b)
        (rw (sym (append_assoc received c (joined cs))) l)
        (rw (sym (append_assoc received c (joined cs))) m) e
  more limit received c body r (failed cs x rest b l e) =
      failed (c ∷ cs) x rest (ap (λ xs. ok c ∷ xs) b)
        (rw (sym (append_assoc received c (joined cs))) l) e

  read_chunks-Reading :
      (limit : ℕ) (received : List Byte) (body : List (Result (List Byte) Foreign))
      → length received ≤ limit
      → Reading limit received body (read_chunks limit received body)
  unfolding read_chunks
  read_chunks-Reading limit received [] h =
      read [] refl (rw (append-nil received) h) (ap (λ xs. ok xs) (sym (append-nil received)))
  read_chunks-Reading limit received (err e ∷ body) h =
      failed [] e body refl (rw (append-nil received) h) refl
  read_chunks-Reading limit received (ok c ∷ body) h =
      elim (Bool-cases (ltb limit (length c + length received))) [
        | inl q ↦
            exceeded [] c body refl (rw (append-nil received) h)
              (rw (append-nil received) (ground (arith, q))) (rw q refl)
        | inr q ↦ rw q (
            more limit received c body (read_chunks limit (received ++ c) body) (
              read_chunks-Reading limit (received ++ c) body
                (rw (length-append received c) (ground (arith, q)))))
      ]

  -- Either the header announces more than the limit, and the body is refused unread; or reading the
  -- chunks ends in one of three ways, and what it returns is never longer than the limit.
  pub read_response_to_body-Reading :
      (limit : ℕ) (content_length : Option ℕ) (body : List (Result (List Byte) Foreign))
      → ((limit < or_zero content_length)
          × (read_response_to_body limit content_length body ≡ err too_large))
        ⊎ ((or_zero content_length ≤ limit)
            × Reading limit [] body (read_response_to_body limit content_length body))
  unfolding read_response_to_body
  read_response_to_body-Reading limit content_length body =
      elim (Bool-cases (ltb limit (or_zero content_length))) [
        | inl q ↦ inl (ground (arith, q), rw q refl)
        | inr q ↦ inr (ground (arith, q), rw q (read_chunks-Reading limit [] body (omega arith)))
      ]
