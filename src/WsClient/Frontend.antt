-- ===== src/WsClient/Frontend.antt =====
-- The user's side of ws-client/src/client.rs: `WsClient` and `WsSubscription`. What the channels answer,
-- and whether the timer of a request runs out first, are arguments. `F` is the type of the errors of
-- other crates, and `C`, `P` those of the one-shot channels.
pub mod Timeouts
use jsonrpsee.Base.{
  ℕ, String, List, [], ◌∷◌, ◌++◌, Option, none, some, Bool, Result, ok, err, map_err, if◌then◌else◌,
  ◌==◌, string_eq,
}
use jsonrpsee.Types.Errors.{ClientError}
use jsonrpsee.Types.Params.{Params}
use jsonrpsee.Types.Response.{SubscriptionId}
use jsonrpsee.WsClient.Client.{FrontToBack}

-- `WsClient`, with what went into the channel to the background task
pub record WsClient (V C P : Type 0) : Type 0 where
  pub to_back : List (FrontToBack V C P)
  pub request_timeout : Option ℕ

-- `WsSubscription`: the notifications in its channel, and whether the sending side is dropped
pub record WsSubscription (V : Type 0) : Type 0 where
  pub notifs_rx : List V
  pub is_closed : Bool
  pub id : SubscriptionId

-- How the wait for a one-shot channel ends: with a message, or because its sender is dropped.
pub data Waited (A : Type 0) : Type 0 where
  received : A → Waited A
  canceled : Waited A

-- What `next` gives: a notification, the end of the stream, or nothing yet.
pub data Next (V N : Type 0) : Type 0 where
  notified : N → WsSubscription V → Next V N
  ended : WsSubscription V → Next V N
  waits : WsSubscription V → Next V N

-- The `select` on a one-shot channel and the timer; `none` where the timer is first. `late` says whether
-- the timer would run out before the channel ends, for a request that has one.
unfoldable pub wait : {A : Type 0} → Option ℕ → Bool → Waited A → Option (Waited A)
wait none late out = some out
wait (some duration) late out = if late then none else some out

module _ {V F : Type 0} where
  -- The match on what came back, in `request` and `subscribe`. `gone` is the error for a background
  -- task that is closed.
  unfoldable pub answer_of :
      {A : Type 0} → F → Waited (Result A (ClientError V F)) → Result A (ClientError V F)
  answer_of gone (received (ok a)) = ok a
  answer_of gone (received (err e)) = err e
  answer_of gone canceled = err (ClientError.transport_error gone)

  -- `jsonrpc::from_value(..).map_err(Error::ParseError)`
  unfoldable pub parse_value :
      {R : Type 0} → (V → Result R F) → Result V (ClientError V F) → Result R (ClientError V F)
  parse_value from_value (ok v) = map_err (λ f. ClientError.parse_failure f) (from_value v)
  parse_value from_value (err e) = err e

  -- `request`, after the `select`
  unfoldable pub reply_of :
      {R : Type 0}
      → (V → Result R F)
      → F
      → Option (Waited (Result V (ClientError V F)))
      → Result R (ClientError V F)
  unfolding parse_value answer_of
  reply_of from_value gone none = err ClientError.ws_request_timeout
  reply_of from_value gone (some out) = parse_value from_value (answer_of gone out)

module _ {V F C P : Type 0} where
  -- `self.to_back.clone().send(message).await.map_err(Error::Internal)`
  unfoldable pub send_to_back :
      Option F
      → FrontToBack V C P
      → WsClient V C P
      → Result (Unit {0}) (ClientError V F) × WsClient V C P
  send_to_back none m c = (ok tt, record c { to_back = c.to_back ++ (m ∷ []) })
  send_to_back (some f) m c = (err (ClientError.internal f), c)

  -- `WsClient::notification`
  unfoldable pub notification :
      String
      → Params V
      → Option F
      → WsClient V C P
      → Result (Unit {0}) (ClientError V F) × WsClient V C P
  unfolding send_to_back
  notification method params full c = send_to_back full (FrontToBack.notification method params) c

  -- `request`, after the message is sent
  unfoldable pub await_reply :
      {R : Type 0}
      → (V → Result R F)
      → F
      → Bool
      → Waited (Result V (ClientError V F))
      → Result (Unit {0}) (ClientError V F) × WsClient V C P
      → Result R (ClientError V F) × WsClient V C P
  unfolding reply_of wait
  await_reply from_value gone late out (err e, c) = (err e, c)
  await_reply from_value gone late out (ok u, c) =
      (reply_of from_value gone (wait c.request_timeout late out), c)

  -- `WsClient::request`
  unfoldable pub request :
      {R : Type 0}
      → (V → Result R F)
      → F
      → String
      → Params V
      → C
      → Option F
      → Bool
      → Waited (Result V (ClientError V F))
      → WsClient V C P
      → Result R (ClientError V F) × WsClient V C P
  unfolding await_reply send_to_back
  request from_value gone method params sink full late out c =
      await_reply from_value gone late out
        (send_to_back full (FrontToBack.start_request method params sink) c)

  -- The end of `subscribe`
  unfoldable pub subscribed :
      F
      → Waited (Result (List V × SubscriptionId) (ClientError V F))
      → Result (Unit {0}) (ClientError V F) × WsClient V C P
      → Result (WsSubscription V) (ClientError V F) × WsClient V C P
  unfolding answer_of
  subscribed gone out (err e, c) = (err e, c)
  subscribed gone out (ok u, c) = elim (answer_of gone out) [
    | ok (rx, id) ↦ (ok (record { notifs_rx = rx; is_closed = Bool.false; id = id }), c)
    | err e ↦ (err e, c)
  ]

  -- `WsClient::subscribe`
  unfoldable pub subscribe :
      F
      → String
      → Params V
      → String
      → P
      → Option F
      → Waited (Result (List V × SubscriptionId) (ClientError V F))
      → WsClient V C P
      → Result (WsSubscription V) (ClientError V F) × WsClient V C P
  unfolding subscribed send_to_back
  subscribe gone subscribe_method params unsubscribe_method sink full out c =
      if subscribe_method == unsubscribe_method
      then (err (ClientError.subscription subscribe_method unsubscribe_method), c)
      else subscribed gone out (
          send_to_back full (FrontToBack.subscribe subscribe_method params unsubscribe_method sink)
            c)

-- `Drop` for `WsSubscription`: the message is lost where the channel does not take it at once.
unfoldable pub drop : {V C P : Type 0} → Bool → WsSubscription V → WsClient V C P → WsClient V C P
drop takes s c =
    if takes
    then record c { to_back = c.to_back ++ (FrontToBack.subscription_closed s.id ∷ []) }
    else c

module _ {V N F : Type 0} (from_value : V → Result N F) where
  -- the loop of `next`, over the notifications in the channel
  unfoldable pub next_in : List V → WsSubscription V → Next V N
  next_in [] s =
      if s.is_closed
      then ended (record s { notifs_rx = [] })
      else waits (record s { notifs_rx = [] })
  next_in (v ∷ vs) s = elim (from_value v) [
    | ok n ↦ notified n (record s { notifs_rx = vs })
    | err f ↦ next_in vs s
  ]

  -- `WsSubscription::next`
  unfoldable pub next : WsSubscription V → Next V N
  unfolding next_in
  next s = next_in s.notifs_rx s
