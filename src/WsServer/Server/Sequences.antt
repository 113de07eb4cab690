-- ===== src/WsServer/Server/Sequences.antt =====
-- The registrations on a new server (ws-server/src/server.rs), one after another.
use jsonrpsee.Base.{String, List, [], ◌∷◌, Option, Bool, arith}
use jsonrpsee.WsServer.Server.{occurrences}
use jsonrpsee.WsServer.Server.Frontend.{
  Front, front_new, register_notification, register_method, register_subscription,
}
use jsonrpsee.WsServer.Server.Registration.{
  SentOnce, register_notification-SentOnce, register_method-SentOnce,
  register_subscription-SentOnce,
}

-- A registration by the user.
pub data Registration (Handler : Type 0) : Type 0 where
  notification : String → Bool → Handler → Registration Handler
  method : String → Handler → Registration Handler
  subscription : String → String → Registration Handler

module _ {Value Handler Foreign : Type 0} where
  -- the front end after a registration, with what sending to the task answers
  abbrev pub register :
      Registration Handler → Option Foreign → Front Value Handler → Front Value Handler
  register (notification name l h) ended f = (register_notification name l h ended f).1
  register (method name h) ended f = (register_method name h ended f).1
  register (subscription s u) ended f = (register_subscription s u ended f).1

  unfoldable pub register_all :
      List (Registration Handler × Option Foreign) → Front Value Handler → Front Value Handler
  register_all [] f = f
  register_all ((r, ended) ∷ rs) f = register_all rs (register r ended f)

  register-SentOnce :
      (r : Registration Handler) (ended : Option Foreign) (f : Front Value Handler)
      → SentOnce f
      → SentOnce (register r ended f)
  register-SentOnce (notification name l h) ended f o =
      register_notification-SentOnce name l h ended f o
  register-SentOnce (method name h) ended f o = register_method-SentOnce name h ended f o
  register-SentOnce (subscription s u) ended f o = register_subscription-SentOnce s u ended f o

  register_all-SentOnce_from :
      (rs : List (Registration Handler × Option Foreign)) (f : Front Value Handler)
      → SentOnce f
      → SentOnce (register_all rs f)
  unfolding register_all
  register_all-SentOnce_from [] f o = o
  register_all-SentOnce_from ((r, ended) ∷ rs) f o =
      register_all-SentOnce_from rs (register r ended f) (register-SentOnce r ended f o)

-- Whatever notifications, methods and subscriptions are registered on a new server, one after another,
-- and whether or not the task still runs, no method name goes to the task twice, and each name that
-- has gone there is registered.
pub register_all-new-SentOnce :
    {Handler Foreign : Type 0} (Value : Type 0) (rs : List (Registration Handler × Option Foreign))
    → SentOnce {Value = Value} (register_all rs front_new)
unfolding occurrences
register_all-new-SentOnce Value rs = register_all-SentOnce_from rs front_new (λ name. omega arith)
