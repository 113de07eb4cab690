-- ===== src/WsClient/Manager.antt =====
-- `RequestManager` of ws-client/src/manager.rs: the requests the client waits for, and its
-- subscriptions. A channel is named by a value of the types `CallSink`, `SubscribeSink` and `Sink`.
pub mod Links
pub mod Removal
use jsonrpsee.Base.{
  ℕ, String, [], Option, none, some, Bool, true, false, Result, ok, err, ◌≡◌, ◌↔◌, refl, Eq, ◌==◌,
  nat_eq, string_eq, if◌then◌else◌, beq_refl, is_none, ap, arith,
}
use jsonrpsee.Base.Dict
use jsonrpsee.Base.Dict.{Dict}
use jsonrpsee.Types.Response.{SubscriptionId, num, str}

-- `PartialEq for SubscriptionId`
abbrev pub subscription_id_beq : SubscriptionId → SubscriptionId → Bool
subscription_id_beq (num a) (num b) = a == b
subscription_id_beq (str a) (str b) = a == b
subscription_id_beq (num a) (str b) = false
subscription_id_beq (str a) (num b) = false

pub subscription_id_beq_iff : (a b : SubscriptionId) → (subscription_id_beq a b ≡ true) ↔ (a ≡ b)
subscription_id_beq_iff (num a) (num b) =
    (λ h. ap (λ x. num x) ((nat_eq.eqb_iff a b).0 h), λ h. (nat_eq.eqb_iff a b).1 cc)
subscription_id_beq_iff (str a) (str b) =
    (λ h. ap (λ x. str x) ((string_eq.eqb_iff a b).0 h), λ h. (string_eq.eqb_iff a b).1 cc)
subscription_id_beq_iff (num a) (str b) = (λ h. cc, λ h. cc)
subscription_id_beq_iff (str a) (num b) = (λ h. cc, λ h. cc)

instance abbrev pub subscription_id_eq : Eq SubscriptionId
subscription_id_eq = record { eqb = subscription_id_beq; eqb_iff = subscription_id_beq_iff }

pub data Kind (CallSink SubscribeSink Sink : Type 0) : Type 0 where
  pending_method_call : CallSink → Kind CallSink SubscribeSink Sink
  pending_subscription : SubscribeSink → String → Kind CallSink SubscribeSink Sink
  subscription : Sink → String → Kind CallSink SubscribeSink Sink

pub data RequestStatus : Type 0 where
  pending_method_call : RequestStatus
  pending_subscription : RequestStatus
  subscription : RequestStatus
  invalid : RequestStatus

pub record RequestManager (CallSink SubscribeSink Sink : Type 0) : Type 0 where
  pub requests : Dict ℕ (Kind CallSink SubscribeSink Sink)
  pub subscriptions : Dict SubscriptionId ℕ

module _ {CallSink SubscribeSink Sink : Type 0} where
  -- `RequestManager::new`
  unfoldable pub new : RequestManager CallSink SubscribeSink Sink
  new = record { requests = []; subscriptions = [] }

  -- `insert_pending_call`
  unfoldable pub insert_pending_call :
      ℕ
      → CallSink
      → RequestManager CallSink SubscribeSink Sink
      → Result {0, 0} Unit CallSink × RequestManager CallSink SubscribeSink Sink
  insert_pending_call id send_back m =
      if is_none (Dict.get m.requests id)
      then (
        ok tt,
        record m { requests = Dict.insert m.requests id (Kind.pending_method_call send_back) },
      )
      else (err send_back, m)

  -- `insert_pending_subscription`
  unfoldable pub insert_pending_subscription :
      ℕ
      → SubscribeSink
      → String
      → RequestManager CallSink SubscribeSink Sink
      → Result {0, 0} Unit SubscribeSink × RequestManager CallSink SubscribeSink Sink
  insert_pending_subscription id send_back unsubscribe m =
      if is_none (Dict.get m.requests id)
      then (
        ok tt,
        record m {
          requests = Dict.insert m.requests id (Kind.pending_subscription send_back unsubscribe);
        },
      )
      else (err send_back, m)

  -- `insert_subscription`
  unfoldable pub insert_subscription :
      ℕ
      → SubscriptionId
      → Sink
      → String
      → RequestManager CallSink SubscribeSink Sink
      → Result {0, 0} Unit Sink × RequestManager CallSink SubscribeSink Sink
  insert_subscription id sub_id send_back unsubscribe m =
      if is_none (Dict.get m.requests id)
      then (if is_none (Dict.get m.subscriptions sub_id)
          then (
            ok tt,
            record {
              requests = Dict.insert m.requests id (Kind.subscription send_back unsubscribe);
              subscriptions = Dict.insert m.subscriptions sub_id id;
            },
          )
          else (err send_back, m))
      else (err send_back, m)

  unfoldable pub complete_subscription_at :
      ℕ
      → Option (Kind CallSink SubscribeSink Sink)
      → RequestManager CallSink SubscribeSink Sink
      → Option (SubscribeSink × String) × RequestManager CallSink SubscribeSink Sink
  complete_subscription_at id (some (Kind.pending_subscription send_back unsubscribe)) m =
      (some (send_back, unsubscribe), record m { requests = Dict.remove m.requests id })
  complete_subscription_at id (some (Kind.pending_method_call send_back)) m = (none, m)
  complete_subscription_at id (some (Kind.subscription sink unsubscribe)) m = (none, m)
  complete_subscription_at id none m = (none, m)

  -- `complete_pending_subscription`
  unfoldable pub complete_pending_subscription :
      ℕ
      → RequestManager CallSink SubscribeSink Sink
      → Option (SubscribeSink × String) × RequestManager CallSink SubscribeSink Sink
  complete_pending_subscription id m = complete_subscription_at id (Dict.get m.requests id) m

  unfoldable pub complete_call_at :
      ℕ
      → Option (Kind CallSink SubscribeSink Sink)
      → RequestManager CallSink SubscribeSink Sink
      → Option CallSink × RequestManager CallSink SubscribeSink Sink
  complete_call_at id (some (Kind.pending_method_call send_back)) m =
      (some send_back, record m { requests = Dict.remove m.requests id })
  complete_call_at id (some (Kind.pending_subscription send_back unsubscribe)) m = (none, m)
  complete_call_at id (some (Kind.subscription sink unsubscribe)) m = (none, m)
  complete_call_at id none m = (none, m)

  -- `complete_pending_call`
  unfoldable pub complete_pending_call :
      ℕ
      → RequestManager CallSink SubscribeSink Sink
      → Option CallSink × RequestManager CallSink SubscribeSink Sink
  complete_pending_call id m = complete_call_at id (Dict.get m.requests id) m

  unfoldable pub remove_subscription_at :
      ℕ
      → SubscriptionId
      → Option (Kind CallSink SubscribeSink Sink)
      → RequestManager CallSink SubscribeSink Sink
      → Option (Sink × String) × RequestManager CallSink SubscribeSink Sink
  remove_subscription_at id sub_id (some (Kind.subscription sink unsubscribe)) m =
      if is_none (Dict.get m.subscriptions sub_id) then (none, m) else (
        some (sink, unsubscribe),
        record {
          requests = Dict.remove m.requests id;
          subscriptions = Dict.remove m.subscriptions sub_id;
        },
      )
  remove_subscription_at id sub_id (some (Kind.pending_method_call send_back)) m = (none, m)
  remove_subscription_at id sub_id (some (Kind.pending_subscription send_back unsubscribe)) m =
      (none, m)
  remove_subscription_at id sub_id none m = (none, m)

  -- `remove_subscription`
  unfoldable pub remove_subscription :
      ℕ
      → SubscriptionId
      → RequestManager CallSink SubscribeSink Sink
      → Option (Sink × String) × RequestManager CallSink SubscribeSink Sink
  remove_subscription id sub_id m = remove_subscription_at id sub_id (Dict.get m.requests id) m

  abbrev pub status_of : Option (Kind CallSink SubscribeSink Sink) → RequestStatus
  status_of (some (Kind.pending_method_call send_back)) = RequestStatus.pending_method_call
  status_of (some (Kind.pending_subscription send_back unsubscribe)) =
      RequestStatus.pending_subscription
  status_of (some (Kind.subscription sink unsubscribe)) = RequestStatus.subscription
  status_of none = RequestStatus.invalid

  -- `request_status`
  abbrev pub request_status : ℕ → RequestManager CallSink SubscribeSink Sink → RequestStatus
  request_status id m = status_of (Dict.get m.requests id)

  abbrev pub sink_of : Option (Kind CallSink SubscribeSink Sink) → Option Sink
  sink_of (some (Kind.subscription sink unsubscribe)) = some sink
  sink_of (some (Kind.pending_method_call send_back)) = none
  sink_of (some (Kind.pending_subscription send_back unsubscribe)) = none
  sink_of none = none

  -- `as_subscription_mut`
  abbrev pub as_subscription_mut : ℕ → RequestManager CallSink SubscribeSink Sink → Option Sink
  as_subscription_mut id m = sink_of (Dict.get m.requests id)

  -- `get_request_id_by_subscription_id`
  abbrev pub get_request_id_by_subscription_id :
      SubscriptionId → RequestManager CallSink SubscribeSink Sink → Option ℕ
  get_request_id_by_subscription_id sub_id m = Dict.get m.subscriptions sub_id
