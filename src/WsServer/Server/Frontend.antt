-- ===== src/WsServer/Server/Frontend.antt =====
-- The front end of ws-server/src/server.rs: the registrations of the user. What `unbounded_send`
-- answers is an argument: the error when the background task has ended.
use jsonrpsee.Base.{
  ℕ, ◌+◌, ◌%◌, String, List, [], ◌∷◌, ◌++◌, Option, none, some, Bool, Result, ok, err,
  if◌then◌else◌, string_eq,
}
use jsonrpsee.Base.Dict
use jsonrpsee.Base.Dict.{Dict}
use jsonrpsee.Types.Errors.{ClientError}
use jsonrpsee.Batches.{u64_mod}
use jsonrpsee.WsServer.Server.{FrontToBack}

-- The front end: `registered_methods`, `next_subscription_unique_id`, and what went to the task.
pub record Front (Value Handler : Type 0) : Type 0 where
  pub registered_methods : Dict String (Unit {0})
  pub next_subscription_unique_id : ℕ
  pub sent : List (FrontToBack Value Handler)

-- the value that `Server::new` returns
abbrev pub front_new : {Value Handler : Type 0} → Front Value Handler
front_new = record { registered_methods = []; next_subscription_unique_id = 0; sent = [] }

-- `registered_methods.lock().insert`
abbrev pub insert_method :
    {Value Handler : Type 0} → String → Front Value Handler → Front Value Handler
insert_method name f = record f { registered_methods = Dict.insert f.registered_methods name tt }

module _ {Value Handler Foreign : Type 0} where
  -- `to_back.unbounded_send`, which fails when the task has ended
  unfoldable pub send_back :
      {A : Type 0}
      → Option Foreign
      → FrontToBack Value Handler
      → A
      → Front Value Handler
      → Result A (ClientError Value Foreign) × Front Value Handler
  send_back none msg a f = (ok a, record f { sent = f.sent ++ (msg ∷ []) })
  send_back (some e) msg a f = (err (ClientError.internal e), f)

  -- `Server::register_notification`; the handler is the sending half of the new channel, and stands
  -- for both.
  unfoldable pub register_notification :
      String
      → Bool
      → Handler
      → Option Foreign
      → Front Value Handler
      → Result Handler (ClientError Value Foreign) × Front Value Handler
  register_notification name allow_losses h ended f =
      if Dict.contains f.registered_methods name
      then (err (ClientError.method_already_registered name), f)
      else send_back ended (FrontToBack.register_notifications name h allow_losses) h
          (insert_method name f)

  -- `Server::register_method`
  unfoldable pub register_method :
      String
      → Handler
      → Option Foreign
      → Front Value Handler
      → Result Handler (ClientError Value Foreign) × Front Value Handler
  register_method name h ended f =
      if Dict.contains f.registered_methods name
      then (err (ClientError.method_already_registered name), f)
      else send_back ended (FrontToBack.register_method name h) h (insert_method name f)

  -- `Server::register_subscription`; the result is the unique id.
  unfoldable pub register_subscription :
      String
      → String
      → Option Foreign
      → Front Value Handler
      → Result ℕ (ClientError Value Foreign) × Front Value Handler
  register_subscription subscribe unsubscribe ended f =
      if Dict.contains f.registered_methods subscribe
      then (err (ClientError.method_already_registered subscribe), f)
      else (let f' : Front Value Handler = insert_method subscribe f in
          if Dict.contains f'.registered_methods unsubscribe
          then (
            err (ClientError.method_already_registered unsubscribe),
            record f' { registered_methods = Dict.remove f'.registered_methods subscribe },
          )
          else (let id = f'.next_subscription_unique_id in
              send_back ended (FrontToBack.register_subscription id subscribe unsubscribe) id
                (record (insert_method unsubscribe f') {
                  next_subscription_unique_id = (id + 1) % u64_mod;
                })))
