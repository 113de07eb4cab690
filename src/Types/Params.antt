-- ===== src/Types/Params.antt =====
-- `Params` of types/src/jsonrpc/params.rs, and the view of it in
-- types/src/jsonrpc/wrapped/params.rs.
use jsonrpsee.Base.{ℕ, String, List, Option, get_elem?, length, ltb, if◌then◌else◌, string_eq}
use jsonrpsee.Base.Dict
use jsonrpsee.Base.Dict.{Dict}

pub data Params (Value : Type 0) : Type 0 where
  none : Params Value
  array : List Value → Params Value
  object : Dict String Value → Params Value

-- `ParamKey` of the wrapper
pub data ParamKey : Type 0 where
  string : String → ParamKey
  index : ℕ → ParamKey

module _ {Value : Type 0} where
  -- `Params::get_raw`
  unfoldable pub get_raw : Params Value → ParamKey → Option Value
  unfolding Dict.get
  get_raw none key = Option.none
  get_raw (object m) (string key) = Dict.get m key
  get_raw (object m) (index i) = Option.none
  get_raw (array xs) (string key) = Option.none
  get_raw (array xs) (index i) = if ltb i (length xs) then get_elem? xs i else Option.none
