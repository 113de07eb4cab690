-- ===== src/Examples/Handlers.antt =====
-- Concrete states of http-server/src/server.rs, with numbers for the channels to the handlers and to the
-- clients.
use jsonrpsee.Base.{ℕ, List, [], ◌∷◌, Option, none, some, true, ok, ◌≡◌, refl, nat_eq, string_eq}
use jsonrpsee.Base.Dict
use jsonrpsee.Batch
use jsonrpsee.Batches
use jsonrpsee.Batches.{elem_id}
use jsonrpsee.Http.RawServer.{RawServer, RawServerEvent}
use jsonrpsee.Http.Server.{FrontToBack, Task, on_event, on_front}
use jsonrpsee.Http.Server.Dispatch.{Served, Refused, on_event-Served}
use jsonrpsee.Http.Server.Handles.{Run, start, then_step, message, Run-answer}
use jsonrpsee.Http.Server.Registration.{
  Registration, SentOnce, register_all, front_new, register_all-SentOnce,
}
use jsonrpsee.WsServer.Server.Sequences
use jsonrpsee.WsServer.Server.Sequences.{register_all-new-SentOnce}
use jsonrpsee.WsServer.Server.Registration as WsRegistration
use jsonrpsee.WsServer.Server.Frontend
use jsonrpsee.Examples.Calls.{asked_batch, first_elem, sum_call}

abbrev server : RawServer ℕ ℕ
server = record {
  raw = record { next_request_id = 5; requests = (4, 70) ∷ []; responded = [] };
  batches = asked_batch;
}

abbrev task : Task ℕ ℕ ℕ
task = record {
  server = server;
  registered_notifications = [];
  registered_methods = ("sum", 1) ∷ [];
  dispatched = [];
}

on_event-Served_example :
    (t' : Task ℕ ℕ ℕ) × (on_event true (RawServerEvent.request first_elem) task ≡ some t')
    × Served true first_elem sum_call task t'
unfolding Batches.request_by_id Batch.request_by_id Dict.get
on_event-Served_example = on_event-Served true first_elem sum_call task refl refl

-- another method is registered before the answer
abbrev later : Task ℕ ℕ ℕ
later = record task { registered_methods = ("sum", 1) ∷ ("log", 2) ∷ [] }

task-Run : Run (elem_id first_elem) task later
unfolding on_front Dict.insert
task-Run = then_step start (message (FrontToBack.register_method "log" 2) later tt refl)

Run-answer_example :
    (u' : Task ℕ ℕ ℕ) × (on_front (FrontToBack.answer_request (elem_id first_elem) (ok 3)) later
      ≡ some u')
    × Refused (elem_id first_elem) later u'
unfolding Batches.request_by_id Batch.request_by_id Dict.get
Run-answer_example =
    Run-answer (elem_id first_elem) first_elem (ok 3) task later (refl, tt) refl task-Run

abbrev registrations : List (Registration ℕ × Option ℕ)
registrations =
    (Registration.method "sum" 1, none)
    ∷ (Registration.notification "log" true 2, none)
    ∷ (Registration.method "sum" 3, none)
    ∷ []

register_all-SentOnce_example : SentOnce {Value = ℕ} (register_all registrations front_new)
register_all-SentOnce_example = register_all-SentOnce registrations

abbrev ws_registrations : List (Sequences.Registration ℕ × Option ℕ)
ws_registrations =
    (Sequences.method "sum" 1, none)
    ∷ (Sequences.subscription "subscribe" "unsubscribe", none)
    ∷ (Sequences.subscription "sum" "forget", some 9)
    ∷ []

register_all-new-SentOnce_example :
    WsRegistration.SentOnce {Value = ℕ} (Sequences.register_all ws_registrations Frontend.front_new)
register_all-new-SentOnce_example = register_all-new-SentOnce ℕ ws_registrations
