-- ===== src/Http/Body.antt =====
-- `read_response_to_body` of utils/src/http/hyper_helpers.rs. The header `content-length`, as
-- `read_header_content_length` reads it, and the chunks of the body, which hyper yields, are arguments.
pub mod Bounds
use jsonrpsee.Base.{
  ℕ, ◌+◌, List, [], ◌∷◌, ◌++◌, Option, none, some, Result, ok, err, ltb, length, if◌then◌else◌,
}

-- `GenericTransportError` of types/src/error.rs
pub data GenericTransportError (Foreign : Type 0) : Type 0 where
  too_large : GenericTransportError Foreign
  inner : Foreign → GenericTransportError Foreign

-- `unwrap_or(0)`
abbrev pub or_zero : Option ℕ → ℕ
or_zero none = 0
or_zero (some n) = n

module _ {Byte Foreign : Type 0} where
  -- the loop over the chunks
  unfoldable pub read_chunks :
      ℕ
      → List Byte
      → List (Result (List Byte) Foreign)
      → Result (List Byte) (GenericTransportError Foreign)
  read_chunks limit received [] = ok received
  read_chunks limit received (err e ∷ chunks) = err (inner e)
  read_chunks limit received (ok chunk ∷ chunks) =
      let rest = read_chunks limit (received ++ chunk) chunks in
      if ltb limit (length chunk + length received) then err too_large else rest

  -- `read_response_to_body`
  unfoldable pub read_response_to_body :
      ℕ
      → Option ℕ
      → List (Result (List Byte) Foreign)
      → Result (List Byte) (GenericTransportError Foreign)
  unfolding read_chunks
  read_response_to_body limit content_length body =
      if ltb limit (or_zero content_length) then err too_large else read_chunks limit [] body
