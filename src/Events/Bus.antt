-- ===== src/Events/Bus.antt =====
-- src/shared/events: `EventRouter`, the in-memory consumer, and `EventBusWorker._process_message`.
-- The worker's tasks for one poll are run in the order of the messages; heartbeats, log lines and
-- signals are left out. `payload` is the event's `data`, and a message's id the number in its text.
use estate_os_service.Base.{ℕ, ◌+◌, String, List, [], ◌∷◌, ◌++◌, str_eq, take, drop, if◌then◌else◌}
use estate_os_service.Json.{Json}
use estate_os_service.Exec.{Result, ok, err, Exec, pure, ◌>>◌}

pub record DomainEvent : Type 0 where
  pub event_type : String
  pub payload : Json
  pub event_id : String
  pub occurred_at : String

pub record Message : Type 0 where
  pub event : DomainEvent
  pub message_id : ℕ

-- A handler works on the context, and may raise.
abbrev pub Handler : Type 0 → Type 0 → Type 0
Handler E C = DomainEvent → Exec E C (Unit {0})

abbrev pub Handlers : Type 0 → Type 0 → Type 0
Handlers E C = List (String × List (Handler E C))

-- `InMemoryMessageConsumer`, with the context that the handlers work on.
pub record Consumer (C : Type 0) : Type 0 where
  pub pending : List Message
  pub acked : List ℕ
  pub next_id : ℕ
  pub context : C

module _ {E C : Type 0} where
  -- `EventRouter.on`, on a `defaultdict(list)`
  unfoldable pub on : String → Handler E C → Handlers E C → Handlers E C
  on event_type h [] = (event_type, h ∷ []) ∷ []
  on event_type h ((t, hs) ∷ r) =
      let rest = on event_type h r in
      if str_eq t event_type then (t, hs ++ h ∷ []) ∷ r else (t, hs) ∷ rest

  -- `self._handlers.get(event.event_type, [])`
  unfoldable pub handlers_for : String → Handlers E C → List (Handler E C)
  handlers_for event_type [] = []
  handlers_for event_type ((t, hs) ∷ r) =
      let rest = handlers_for event_type r in if str_eq t event_type then hs else rest

  unfoldable pub run_handlers : List (Handler E C) → DomainEvent → Exec E C (Unit {0})
  run_handlers [] e = pure tt
  run_handlers (h ∷ hs) e = h e >> run_handlers hs e

  -- `EventRouter.dispatch`
  unfoldable pub dispatch : Handlers E C → DomainEvent → Exec E C (Unit {0})
  unfolding run_handlers handlers_for
  dispatch router e = run_handlers (handlers_for e.event_type router) e

  abbrev pub settle : Message → Result E (Unit {0}) × C → Consumer C → Consumer C
  settle m (ok u, c) q = record q { acked = q.acked ++ m.message_id ∷ []; context = c }
  settle m (err e, c) q = record q { pending = q.pending ++ m ∷ []; context = c }

  -- `EventBusWorker._process_message`: acknowledged when the handlers return, put back when one
  -- raises.
  unfoldable pub process_message : Handlers E C → Message → Consumer C → Consumer C
  unfolding dispatch
  process_message router m q = settle m (dispatch router m.event q.context) q

  unfoldable pub process_all : Handlers E C → List Message → Consumer C → Consumer C
  process_all router [] q = q
  process_all router (m ∷ ms) q = process_all router ms (process_message router m q)

  -- One turn of the loop in `EventBusWorker.run`: poll, and process what came.
  unfoldable pub poll_once : Handlers E C → ℕ → Consumer C → Consumer C
  unfolding process_all
  poll_once router max_messages q =
      process_all router (take max_messages q.pending)
        (record q { pending = drop max_messages q.pending })

module _ {C : Type 0} where
  -- `enqueue`
  unfoldable pub enqueue : DomainEvent → Consumer C → Consumer C
  enqueue e q = record q {
    next_id = q.next_id + 1;
    pending = q.pending ++ record { event = e; message_id = q.next_id + 1 } ∷ [];
  }
