-- ===== src/Utils/Headers.antt =====
-- The helpers on headers in utils/src/http/hyper_helpers.rs. What hyper answers about the headers of a
-- request is a record: their names, each once, and for a name its values, each by what `to_str` makes
-- of it.
use jsonrpsee.Base.{ℕ, List, [], ◌∷◌, Option, none, some, ◌^◌}
use jsonrpsee.Base.Text.{Text, codes, parse_unsigned}

pub record HeaderMap : Type 0 where
  pub keys : List Text
  pub get_all : Text → List (Option Text)

single_value : List (Option Text) → Option Text
single_value [] = none
single_value (v ∷ []) = v
single_value (v ∷ w ∷ vs) = none

-- `read_header_value`
unfoldable pub read_header_value : HeaderMap → Text → Option Text
unfolding single_value
read_header_value headers name = single_value (headers.get_all name)

-- `read_header_values`
unfoldable pub read_header_values : HeaderMap → Text → List (Option Text)
read_header_values headers name = headers.get_all name

content_length_of : Option Text → Option ℕ
content_length_of none = none
content_length_of (some length) = parse_unsigned (2 ^ 32) length

-- `read_header_content_length`
unfoldable pub read_header_content_length : HeaderMap → Option ℕ
unfolding content_length_of
read_header_content_length headers =
    content_length_of (read_header_value headers (codes "content-length"))
