-- ===== src/Types/Request.antt =====
-- types/src/jsonrpc/request.rs, id.rs and version.rs.
use jsonrpsee.Base.{ℕ, String, List, Option, none, some}
use jsonrpsee.Types.Params.{Params}

pub data Version : Type 0 where
  v2 : Version

pub data CallId : Type 0 where
  null : CallId
  num : ℕ → CallId
  str : String → CallId

-- `Id::as_number`
unfoldable pub as_number : CallId → Option ℕ
as_number (num n) = some n
as_number null = none
as_number (str s) = none

pub record MethodCall (Value : Type 0) : Type 0 where
  pub jsonrpc : Version
  pub method : String
  pub params : Params Value
  pub id : CallId

pub record Notification (Value : Type 0) : Type 0 where
  pub jsonrpc : Version
  pub method : String
  pub params : Params Value

pub data Call (Value : Type 0) : Type 0 where
  method_call : MethodCall Value → Call Value
  notification : Notification Value → Call Value
  invalid : CallId → Call Value

pub data Request (Value : Type 0) : Type 0 where
  single : Call Value → Request Value
  batch : List (Call Value) → Request Value
