-- ===== src/Types/Response.antt =====
-- types/src/jsonrpc/response.rs.
use jsonrpsee.Base.{ℕ, String, List, Result, ok, err}
use jsonrpsee.Types.Errors.{Error}
use jsonrpsee.Types.Request.{Version, CallId}

pub record Success (Value : Type 0) : Type 0 where
  pub jsonrpc : Version
  pub result : Value
  pub id : CallId

pub record Failure (Value : Type 0) : Type 0 where
  pub jsonrpc : Version
  pub error : Error Value
  pub id : CallId

pub data Output (Value : Type 0) : Type 0 where
  success : Success Value → Output Value
  failure : Failure Value → Output Value

pub data SubscriptionId : Type 0 where
  num : ℕ → SubscriptionId
  str : String → SubscriptionId

pub record SubscriptionNotifParams (Value : Type 0) : Type 0 where
  pub subscription : SubscriptionId
  pub result : Value

pub record SubscriptionNotif (Value : Type 0) : Type 0 where
  pub jsonrpc : Version
  pub method : String
  pub params : SubscriptionNotifParams Value

pub data Response (Value : Type 0) : Type 0 where
  single : Output Value → Response Value
  batch : List (Output Value) → Response Value
  notif : SubscriptionNotif Value → Response Value

module _ {Value : Type 0} where
  -- `Output::from`
  unfoldable pub output_from : Result Value (Error Value) → CallId → Version → Output Value
  output_from (ok r) i v = success (record { jsonrpc = v; result = r; id = i })
  output_from (err e) i v = failure (record { jsonrpc = v; error = e; id = i })

  -- `Output::version`
  unfoldable pub output_version : Output Value → Version
  output_version (success s) = s.jsonrpc
  output_version (failure f) = f.jsonrpc

  -- `Output::id`
  unfoldable pub output_id : Output Value → CallId
  output_id (success s) = s.id
  output_id (failure f) = f.id

  -- `TryFrom<Output> for JsonValue`
  unfoldable pub output_value : Output Value → Result Value (Error Value)
  output_value (success s) = ok s.result
  output_value (failure f) = err f.error
