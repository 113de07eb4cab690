-- ===== src/Http/Server.antt =====
-- http-server/src/server.rs: the background task that dispatches the events of `RawServer`. `Handler` is
-- the type of the channels to the user's handlers. A function that can panic returns an `Option`.
pub mod Frontend
pub mod Registration
pub mod Dispatch
pub mod Handles
use jsonrpsee.Base.{
  List, [], ◌∷◌, ◌++◌, String, Option, none, some, Bool, Result, err, if◌then◌else◌, string_eq,
}
use jsonrpsee.Base.Int.{pos}
use jsonrpsee.Base.Dict
use jsonrpsee.Base.Dict.{Dict}
use jsonrpsee.Types.Codes.{ErrorCode}
use jsonrpsee.Types.Errors.{Error, error_new}
use jsonrpsee.Types.Params.{Params}
use jsonrpsee.Types.Request.{MethodCall, Notification}
use jsonrpsee.Batches
use jsonrpsee.Batches.{BatchesElem, BatchesElemId, elem_id}
use jsonrpsee.Http.RawServer
use jsonrpsee.Http.RawServer.{RawServer, RawServerEvent}
use jsonrpsee.Base.{ℕ}

-- `FrontToBack`
pub data FrontToBack (Value Handler : Type 0) : Type 0 where
  register_notifications : String → Handler → Bool → FrontToBack Value Handler
  register_method : String → Handler → FrontToBack Value Handler
  answer_request : BatchesElemId → Result Value (Error Value) → FrontToBack Value Handler

-- What the task has sent on the handlers' channels.
pub data Dispatched (Value Handler : Type 0) : Type 0 where
  notified : Handler → Params Value → Dispatched Value Handler
  requested : Handler → BatchesElemId → Params Value → Dispatched Value Handler

-- The variables of `background_task`
pub record Task (Value Handler SendBack : Type 0) : Type 0 where
  pub server : RawServer Value SendBack
  pub registered_notifications : Dict String (Handler × Bool)
  pub registered_methods : Dict String Handler
  pub dispatched : List (Dispatched Value Handler)

module _ {Value Handler SendBack : Type 0} where
  unfoldable pub with_server :
      Option (RawServer Value SendBack)
      → Task Value Handler SendBack
      → Option (Task Value Handler SendBack)
  with_server none t = none
  with_server (some s) t = some (record t { server = s })

  -- `RawServerRequest::respond`
  unfoldable pub respond :
      BatchesElemId
      → Result Value (Error Value)
      → Task Value Handler SendBack
      → Option (Task Value Handler SendBack)
  respond id r t = with_server (RawServer.respond id r t.server) t

  -- `server.request_by_id(&request_id).unwrap().respond(answer)`
  unfoldable pub answer_found :
      Result Value (Error Value)
      → Option (BatchesElem Value (Option ℕ))
      → Task Value Handler SendBack
      → Option (Task Value Handler SendBack)
  answer_found r none t = none
  answer_found r (some x) t = respond (elem_id x) r t

  -- The arms `Either::Left(Some(..))`
  unfoldable pub on_front :
      FrontToBack Value Handler → Task Value Handler SendBack → Option (Task Value Handler SendBack)
  on_front (FrontToBack.answer_request id r) t =
      answer_found r (Batches.request_by_id id t.server.batches) t
  on_front (FrontToBack.register_notifications name h allow_losses) t = some (record t {
    registered_notifications = Dict.insert t.registered_notifications name (h, allow_losses);
  })
  on_front (FrontToBack.register_method name h) t =
      some (record t { registered_methods = Dict.insert t.registered_methods name h })

  -- The arm `Notification`. `takes` says whether the channel to the handler takes the message: at once
  -- where losses are allowed, else after waiting.
  unfoldable pub on_notification :
      Bool
      → Notification Value
      → Option (Handler × Bool)
      → Task Value Handler SendBack
      → Task Value Handler SendBack
  on_notification takes n none t = t
  on_notification takes n (some (h, allow_losses)) t =
      if takes then record t { dispatched = t.dispatched ++ (notified h n.params ∷ []) } else t

  -- A request for which there may be a handler
  unfoldable pub on_call :
      Bool
      → BatchesElem Value (Option ℕ)
      → MethodCall Value
      → Option Handler
      → Task Value Handler SendBack
      → Option (Task Value Handler SendBack)
  on_call takes x c none t = respond (elem_id x) (err (error_new ErrorCode.method_not_found)) t
  on_call takes x c (some h) t =
      if takes
      then some (record t { dispatched = t.dispatched ++ (requested h (elem_id x) c.params ∷ []) })
      else respond (elem_id x) (err (error_new (ErrorCode.server_error (pos 0)))) t

  -- The arm `Request`; `none` is the panic of the accessors of a request that is no method call.
  unfoldable pub on_request :
      Bool
      → BatchesElem Value (Option ℕ)
      → Option (MethodCall Value)
      → Task Value Handler SendBack
      → Option (Task Value Handler SendBack)
  on_request takes x none t = none
  on_request takes x (some c) t = on_call takes x c (Dict.get t.registered_methods c.method) t

  -- The arms `Either::Right`
  unfoldable pub on_event :
      Bool
      → RawServerEvent Value
      → Task Value Handler SendBack
      → Option (Task Value Handler SendBack)
  on_event takes (RawServerEvent.notification n) t =
      some (on_notification takes n (Dict.get t.registered_notifications n.method) t)
  on_event takes (RawServerEvent.request x) t = on_request takes x x.inner.elem t
