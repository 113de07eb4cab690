-- ===== src/WsServer/Transport/Reports.antt =====
-- What `next_request` of ws-server/src/transport.rs returns is limited by what is pending and what the
-- tasks report.
use jsonrpsee.Base.{
  ℕ, ◌+◌, ◌≤◌, ◌<◌, List, [], ◌∷◌, ◌++◌, Option, none, some, Bool, true, false, ◌≡◌, refl,
  if◌then◌else◌, nat_eq, arith, length, length-append,
}
use jsonrpsee.Base.Dict
use jsonrpsee.Base.Dict.{Dict}
use jsonrpsee.WsServer.Transport.{
  WsTransportServer, TransportServerEvent, Event, task_finished, new_connection, new_request,
  close_requests, next_request, report, pop_pending,
}

module _ {Value : Type 0} where
  -- what the transport has yet to report: at most so many events
  abbrev pub load : List (Event Value) → ℕ
  load [] = 0
  load (task_finished ids ∷ evs) = length ids + load evs
  load (new_connection ∷ evs) = load evs
  load (new_request id rq s ∷ evs) = 1 + load evs

  close_request-pending :
      (id : ℕ) (b : Bool) (t : WsTransportServer Value)
      → length
          (if b
            then record t {
              to_connections = Dict.remove t.to_connections id;
              pending_events = t.pending_events ++ (TransportServerEvent.closed id ∷ []);
            }
            else t).pending_events
        ≤ length t.pending_events + 1
  close_request-pending id true t =
      let m = length-append t.pending_events (TransportServerEvent.closed id ∷ []) in omega arith
  close_request-pending id false t = omega arith

  close_requests-pending :
      (ids : List ℕ) (t : WsTransportServer Value)
      → length (close_requests ids t).pending_events ≤ length t.pending_events + length ids
  unfolding close_requests
  close_requests-pending [] t = omega arith
  close_requests-pending (id ∷ ids) t =
      let k = close_request-pending id (Dict.contains t.to_connections id) t in
      let m = close_requests-pending ids (
        if Dict.contains t.to_connections id
        then record t {
          to_connections = Dict.remove t.to_connections id;
          pending_events = t.pending_events ++ (TransportServerEvent.closed id ∷ []);
        }
        else t) in
      omega arith

  -- An event that `next_request` returns is one fewer to come.
  abbrev pub Reports :
      ℕ
      → Option (TransportServerEvent Value) × WsTransportServer Value × List (Event Value)
      → Type 0
  Reports n (none, t, rest) = Unit
  Reports n (some ev, t, rest) = length t.pending_events + load rest < n

  Reports-le :
      (m n : ℕ)
      (r : Option (TransportServerEvent Value) × WsTransportServer Value × List (Event Value))
      → m ≤ n
      → Reports m r
      → Reports n r
  Reports-le m n (none, t, rest) h k = tt
  Reports-le m n (some ev, t, rest) h k = omega arith

  report-Reports :
      (l : List (TransportServerEvent Value)) (t : WsTransportServer Value)
      (evs : List (Event Value))
      (r : Option (TransportServerEvent Value) × WsTransportServer Value × List (Event Value))
      → (l ≡ [] → Reports (load evs) r)
      → Reports (length l + load evs) (report (pop_pending l t) evs r)
  report-Reports [] t evs r h = Reports-le (load evs) (0 + load evs) r (omega arith) (h refl)
  report-Reports (x ∷ l) t evs r h = omega arith

  -- Each event that `next_request` returns is one fewer to come.
  pub next_request-Reports :
      (evs : List (Event Value)) (t : WsTransportServer Value)
      → Reports (length t.pending_events + load evs) (next_request evs t)
  unfolding next_request
  next_request-Reports [] t = report-Reports t.pending_events t [] (none, t, []) (λ e. tt)
  next_request-Reports (new_connection ∷ evs) t =
      report-Reports t.pending_events t (new_connection ∷ evs) (next_request evs t) (λ e.
        Reports-le (length t.pending_events + load evs) (load evs) (next_request evs t)
          (rw e (omega arith)) (next_request-Reports evs t))
  next_request-Reports (new_request id rq s ∷ evs) t =
      report-Reports t.pending_events t (new_request id rq s ∷ evs) _ (λ e. rw e (omega arith))
  next_request-Reports (task_finished ids ∷ evs) t =
      report-Reports t.pending_events t (task_finished ids ∷ evs)
        (next_request evs (close_requests ids t))
        (λ e.
          Reports-le (length (close_requests ids t).pending_events + load evs)
            (length ids + load evs) (next_request evs (close_requests ids t))
            (let k = close_requests-pending ids t in
              let z : length t.pending_events ≡ 0 = rw e refl in omega arith)
            (next_request-Reports evs (close_requests ids t)))
