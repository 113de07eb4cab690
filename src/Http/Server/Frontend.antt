-- ===== src/Http/Server/Frontend.antt =====
-- The front end of http-server/src/server.rs: the registrations of the user, and the answer to a
-- request. What `unbounded_send` and `send` answer is an argument: the error when the background task
-- has ended.
use jsonrpsee.Base.{
  String, List, [], ◌∷◌, ◌++◌, Option, none, some, Bool, Result, ok, err, if◌then◌else◌, string_eq,
}
use jsonrpsee.Base.Dict
use jsonrpsee.Base.Dict.{Dict}
use jsonrpsee.Types.Errors.{Error, ClientError}
use jsonrpsee.Types.Params.{Params}
use jsonrpsee.Batches.{BatchesElemId}
use jsonrpsee.Http.Server.{FrontToBack}

-- `Server`: `registered_methods`, and what went to the task.
pub record Front (Value Handler : Type 0) : Type 0 where
  pub registered_methods : Dict String (Unit {0})
  pub sent : List (FrontToBack Value Handler)

-- `IncomingRequest`
pub record IncomingRequest (Value : Type 0) : Type 0 where
  pub request_id : BatchesElemId
  pub params : Params Value

module _ {Value Handler : Type 0} where
  unfoldable pub insert_method : String → Front Value Handler → Front Value Handler
  insert_method name f = record f { registered_methods = Dict.insert f.registered_methods name tt }

  module _ {Foreign : Type 0} where
    -- `to_back.unbounded_send`
    unfoldable pub send_back :
        {A : Type 0}
        → Option Foreign
        → FrontToBack Value Handler
        → A
        → Front Value Handler
        → Result A (ClientError Value Foreign) × Front Value Handler
    send_back none msg a f = (ok a, record f { sent = f.sent ++ (msg ∷ []) })
    send_back (some e) msg a f = (err (ClientError.internal e), f)

    -- `Server::register_notification`; the handler is the sending half of the new channel, and stands
    -- for both.
    unfoldable pub register_notification :
        String
        → Bool
        → Handler
        → Option Foreign
        → Front Value Handler
        → Result Handler (ClientError Value Foreign) × Front Value Handler
    register_notification name allow_losses h ended f =
        if Dict.contains f.registered_methods name
        then (err (ClientError.method_already_registered name), f)
        else send_back ended (FrontToBack.register_notifications name h allow_losses) h
            (insert_method name f)

    -- `Server::register_method`
    unfoldable pub register_method :
        String
        → Handler
        → Option Foreign
        → Front Value Handler
        → Result Handler (ClientError Value Foreign) × Front Value Handler
    register_method name h ended f =
        if Dict.contains f.registered_methods name
        then (err (ClientError.method_already_registered name), f)
        else send_back ended (FrontToBack.register_method name h) h (insert_method name f)

    -- `IncomingRequest::respond`
    unfoldable pub respond :
        IncomingRequest Value
        → Result Value (Error Value)
        → Option Foreign
        → Front Value Handler
        → Result (Unit {0}) (ClientError Value Foreign) × Front Value Handler
    respond rq r ended f = send_back ended (FrontToBack.answer_request rq.request_id r) tt f
